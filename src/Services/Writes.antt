-- ===== src/Services/Writes.antt =====
-- What the database parts of the service operations do to the tables, on every way to end.
use go_user_and_service_mgmt.Prelude.{
  ℕ, pos, String, not, refl, inl, inr, arith, ◌&&◌, text_comparable, number_comparable,
}
use go_user_and_service_mgmt.Models.{ServiceVersion}
use go_user_and_service_mgmt.Gorm.{Database}
use go_user_and_service_mgmt.Gorm.Laws.{IsRelational}
use go_user_and_service_mgmt.Gorm.Rules.{
  on-call, on-test, on-count, on-create, on-updates, on-transaction,
}
use go_user_and_service_mgmt.Services.Operations.{
  insert_service, change_service, remove_service, insert_version, update_service_version,
  remove_version, has_service_id, has_name, is_version, new_service, service_to_update, version_of,
}
use go_user_and_service_mgmt.Services.Effects.{
  Checks, AddsService, ChangesService, RemovesService, AddsVersion, ChangesVersion, DropsVersion,
  IfOk, occurs,
}
use go_user_and_service_mgmt.Services.Bodies.{
  check_if_service_exist-Checks, check_if_version_for_service_exist-Checks,
  delete_service_rows-RemovesService, create_version_rows-AddsVersion,
  delete_version_rows-DropsVersion,
}

module _ {World : Type 0} (db : Database World) (laws : IsRelational db) where
  module _ (w : World) where
    -- Creating a service adds exactly that service, or changes nothing; "already exists" is
    -- answered only if a service has the name.
    pub insert_service-AddsService :
        (name description : String)
        → AddsService db (db.tables w) name description (insert_service db name description w)
    unfolding insert_service
    insert_service-AddsService name description =
        let Q = AddsService db (db.tables w) name description in
        on-count Q db.tables laws.services_lem.readable (has_name name) _ _ refl
          (λ w₁ e₁.
            on-test Q _ _ _ _ (λ h. (e₁, inr (refl, ground arith)))
              (λ h.
                on-create Q db.tables laws.services_lem (new_service name description) _ _ e₁
                  (λ r w₂ (frame, filled, rows, id, key). (filled, frame, rows, id, key))
                  (λ e w₂ (same, dup). (same, ground arith))))
          (λ e w₁ e₁. (e₁, inl refl))

    -- Updating a service overwrites the fields that are given non-empty, keeps the count and
    -- returns what was asked for with the count 0, or changes nothing; "does not exist" is answered
    -- only if no service has the id.
    pub change_service-ChangesService :
        (id : ℕ) (name description : String)
        → ChangesService db
            (db.tables w)
            (record { id = id; name = name; description = description; version_count = pos 0 })
            (change_service db id name description w)
    unfolding change_service
    change_service-ChangesService id name description =
        let s = service_to_update id name description in
        let Q = ChangesService db (db.tables w) s in
        on-call Q (Checks db (db.tables w) (occurs (has_service_id id) (db.tables w).service)) _ _ _
          w (check_if_service_exist-Checks db laws id w)
          (λ x w₁ (e₁, found).
            on-test Q _ _ _ _ (λ h. (e₁, inr (inl (refl, ground arith))))
              (λ known.
                on-count Q db.tables laws.services_lem.readable
                  (λ x. has_name name x && not (has_service_id id x)) _ _ e₁
                  (λ w₂ e₂.
                    on-test Q _ _ _ _ (λ h. (e₂, inr (inr refl)))
                      (λ free.
                        on-updates Q db.tables laws.services_lem (has_service_id id) s _ _ e₂
                          (λ w₃ (frame, rows, unique). (refl, frame, rows, ground arith, unique))
                          (λ e w₃ e₃ found'. (e₃, ground arith))))
                  (λ e w₂ e₂. (e₂, inl refl))))
          (λ e w₁ (e₁, internal). (e₁, inl internal))

    -- Updating a version overwrites its text if it is given non-empty and returns what was asked
    -- for, or changes nothing; "does not exist" is answered only if there is no such version.
    pub update_service_version-ChangesVersion :
        (id : ℕ) (tag info : String)
        → ChangesVersion db
            (db.tables w)
            (record { service_id = id; tag = tag; info = info })
            (update_service_version db id tag info w)
    unfolding update_service_version
    update_service_version-ChangesVersion id tag info =
        let v = version_of id tag info in
        let Q = ChangesVersion db (db.tables w) v in
        on-call Q (Checks db (db.tables w) (occurs (is_version id tag) (db.tables w).version)) _ _ _
          w (check_if_version_for_service_exist-Checks db laws id tag w)
          (λ x w₁ (e₁, found).
            on-test Q _ _ _ _ (λ h. (e₁, inr (refl, ground arith)))
              (λ known.
                on-updates Q db.tables laws.versions_lem (is_version id tag) v _ _ e₁
                  (λ w₂ (frame, rows, unique). (refl, frame, rows, ground arith))
                  (λ e w₂ e₂ found'. (e₂, ground arith))))
          (λ e w₁ (e₁, internal). (e₁, inl internal))

    -- Deleting a service removes it and all its versions, and no other row, or changes nothing.
    pub remove_service-RemovesService :
        (id : ℕ) → RemovesService db (db.tables w) id (remove_service db id w)
    unfolding remove_service
    remove_service-RemovesService id =
        let Q = RemovesService db (db.tables w) id in
        on-call Q (Checks db (db.tables w) (occurs (has_service_id id) (db.tables w).service)) _ _ _
          w (check_if_service_exist-Checks db laws id w)
          (λ x w₁ (e₁, found).
            on-test Q _ _ _ _ (λ h. e₁)
              (λ known.
                on-transaction Q laws (IfOk (RemovesService db (db.tables w) id)) _ _ _
                  (λ w₀ start. delete_service_rows-RemovesService db laws (db.tables w) w₀ start id)
                  e₁ (λ w₂ w₃ same h. rw same h) (λ e w₂ e₂. e₂)))
          (λ e w₁ (e₁, _). e₁)

    -- Creating a version adds exactly that version, of a service that exists, and raises that
    -- service's count by one, or changes nothing.
    pub insert_version-AddsVersion :
        (id : ℕ) (tag info : String)
        → AddsVersion db
            (db.tables w)
            (record { service_id = id; tag = tag; info = info })
            (insert_version db id tag info w)
    unfolding insert_version
    insert_version-AddsVersion id tag info =
        let v = version_of id tag info in
        let Q = AddsVersion db (db.tables w) {A = ServiceVersion} v in
        on-count Q db.tables laws.versions_lem.readable (is_version id tag) _ _ refl
          (λ w₁ e₁.
            on-test Q _ _ _ _ (λ h. e₁)
              (λ free.
                on-transaction Q laws (IfOk (AddsVersion db (db.tables w) v)) _ _ _
                  (λ w₀ start. create_version_rows-AddsVersion db laws (db.tables w) w₀ start v) e₁
                  (λ w₂ w₃ same h. rw same h) (λ e w₂ e₂. e₂)))
          (λ e w₁ e₁. e₁)

    -- Deleting a version removes its rows and no other, and lowers the count of its service by
    -- one, or changes nothing.
    pub remove_version-DropsVersion :
        (id : ℕ) (tag : String) → DropsVersion db (db.tables w) id tag (remove_version db id tag w)
    unfolding remove_version
    remove_version-DropsVersion id tag =
        let Q = DropsVersion db (db.tables w) id tag in
        on-call Q (Checks db (db.tables w) (occurs (is_version id tag) (db.tables w).version)) _ _ _
          w (check_if_version_for_service_exist-Checks db laws id tag w)
          (λ x w₁ (e₁, found).
            on-test Q _ _ _ _ (λ h. e₁)
              (λ known.
                on-transaction Q laws (IfOk (DropsVersion db (db.tables w) id tag)) _ _ _
                  (λ w₀ start.
                    delete_version_rows-DropsVersion db laws (db.tables w) w₀ start id tag
                      (ground arith))
                  e₁ (λ w₂ w₃ same h. rw same h) (λ e w₂ e₂. e₂)))
          (λ e w₁ (e₁, _). e₁)
