-- ===== src/Services/Worker/System.antt =====
-- The worker of internal/components/service/operations.go among the requests: their writes to the
-- database and their raising of the flag are steps of their own, in any order.
use go_user_and_service_mgmt.Prelude.{
  ℕ, suc, String, Bool, true, false, ◌≡◌, ◌≢◌, SameRows, if◌then◌else◌,
}
use go_user_and_service_mgmt.Gorm.{Result, ok, err, Database, Tables}
use go_user_and_service_mgmt.Services.Operations.{
  Server, insert_service, change_service, remove_service, insert_version, remove_version,
}
use go_user_and_service_mgmt.Services.Worker.{Pc, Event, worker_step}

-- The operations that raise the flag after they have written.
pub data Write : Type 0 where
  create : String → String → Write
  update : ℕ → String → String → Write
  delete : ℕ → Write
  create_version : ℕ → String → String → Write
  delete_version : ℕ → String → Write

abbrev pub succeeded {ℓ} : {A : Type ℓ} → Result A → Bool
succeeded (ok _) = true
succeeded (err _) = false

abbrev pub ended : {World A : Type 0} → Result A × World → Bool × World
ended (r, w) = (succeeded r, w)

-- The database part of an operation: whether it succeeded, and the world after it.
unfoldable pub run_write : {World : Type 0} → Database World → Write → World → Bool × World
run_write db (Write.create name description) w = ended (insert_service db name description w)
run_write db (Write.update id name description) w = ended (change_service db id name description w)
run_write db (Write.delete id) w = ended (remove_service db id w)
run_write db (Write.create_version id tag info) w = ended (insert_version db id tag info w)
run_write db (Write.delete_version id tag) w = ended (remove_version db id tag w)

-- The server, the worker, and how many operations have written and not yet raised the flag.
pub record System (World : Type 0) : Type 0 where
  pub server : Server World
  pub pc : Pc
  pub pending : ℕ

module _ {World : Type 0} (db : Database World) where
  abbrev pub after_write : System World → Bool × World → System World
  after_write s (written, w) = record s {
    server = record (s.server) { world = w };
    pending = if written then suc s.pending else s.pending;
  }

  abbrev pub after_work : System World → Server World × Pc → System World
  after_work s (server, pc) = record s { server = server; pc = pc }

  abbrev pub after_raise : System World → ℕ → System World
  after_raise s n = record s { server = record (s.server) { to_refresh_views = true }; pending = n }

  -- `Raises` says where the worker may stand when an operation raises the flag.
  pub data Step (Raises : Pc → Type 0) (s : System World) : System World → Type 0 where
    work : (e : Event) → Step Raises s (after_work s (worker_step db e (s.server, s.pc)))
    write : (op : Write) → Step Raises s (after_write s (run_write db op s.server.world))
    raise : (n : ℕ) → s.pending ≡ suc n → Raises s.pc → Step Raises s (after_raise s n)
    -- any call that leaves the services and their view alone
    other :
        (w : World)
        → (db.tables w).service ≡ (db.tables s.server.world).service
        → (db.tables w).name_sorted_service ≡ (db.tables s.server.world).name_sorted_service
        → Step Raises s (record s { server = record (s.server) { world = w } })

  pub data Reach (Raises : Pc → Type 0) (s : System World) : System World → Type 0 where
    here : Reach Raises s s
    next : {t u : System World} → Reach Raises s t → Step Raises t u → Reach Raises s u

-- The worker starts with the view in any state and no request made.
abbrev pub initial : {World : Type 0} → World → System World
initial w = record {
  server = record { world = w; to_refresh_views = false };
  pc = Pc.starting 0;
  pending = 0;
}

-- The view shows the services as they are.
abbrev pub IsFresh : Tables → Type 0
IsFresh t = SameRows t.name_sorted_service t.service

abbrev pub Anywhere : Pc → Type 0
Anywhere _ = Unit

-- Not between the refresh and the clearing of the flag.
abbrev pub OutsideWindow : Pc → Type 0
OutsideWindow pc = pc ≢ Pc.clearing
