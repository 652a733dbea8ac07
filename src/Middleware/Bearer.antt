-- ===== src/Middleware/Bearer.antt =====
-- `strings.Split(authHeader, " ")` of internal/middleware/mid.go, and the header that it accepts.
use Prim.Native.Char.{Char, char, code}
use Prim.Native.String.{String, [], ◌∷◌, ◌++◌}
use text.Mathlib.TextEquality.{Char-path}
use text.Mathlib.TextLemmas.{nil-append, cons-append}
use go_user_and_service_mgmt.Prelude.{
  Bool, true, false, List, [], ◌∷◌, Option, none, some, nat_eq, ◌≡◌, refl, sym, ap, ◌∙◌,
  if◌then◌else◌, Bool-cases, inl, inr, ◌==◌, text_comparable, arith, ◌↔◌, eq_iff,
}

abbrev is_space : Char → Bool
is_space c = nat_eq (code c) 32

abbrev blank : Char
blank = char 32 tt

-- A character in front of the first piece.
abbrev extend : Char → List String → List String
extend c [] = (c ∷ "") ∷ []
extend c (piece ∷ pieces) = (c ∷ piece) ∷ pieces

unfoldable pub split_spaces : String → List String
split_spaces [] = "" ∷ []
split_spaces (c ∷ s) = let rest = split_spaces s in if is_space c then "" ∷ rest else extend c rest

abbrev pub has_space : String → Bool
has_space [] = false
has_space (c ∷ s) = let rest = has_space s in if is_space c then true else rest

-- `len(parts) != 2 || parts[0] != "Bearer"`, and else `parts[1]`
unfoldable pub bearer_token : List String → Option String
bearer_token (scheme ∷ token ∷ []) = if scheme == "Bearer" then some token else none
bearer_token _ = none

-- The pieces with a space between them.
abbrev joined : List String → String
joined [] = ""
joined (piece ∷ []) = piece
joined (piece ∷ next ∷ rest) = piece ++ (" " ++ joined (next ∷ rest))

split_spaces-cons :
    (s : String) → (first : String) × (rest : List String) × (split_spaces s ≡ first ∷ rest)
unfolding split_spaces
split_spaces-cons [] = ("", [], refl)
split_spaces-cons (c ∷ s) =
    let (first, rest, shape) = split_spaces-cons s in
    elim (Bool-cases (is_space c)) [
      | inl space ↦ ("", first ∷ rest, rw (space, shape) refl)
      | inr other ↦ (c ∷ first, rest, rw (other, shape) refl)
    ]

joined-extend : (c : Char) (pieces : List String) → joined (extend c pieces) ≡ c ∷ joined pieces
joined-extend c [] = refl
joined-extend c (piece ∷ []) = refl
joined-extend c (piece ∷ next ∷ rest) = cons-append c piece (" " ++ joined (next ∷ rest))

-- No text is lost.
joined-split_spaces : (s : String) → joined (split_spaces s) ≡ s
unfolding split_spaces
joined-split_spaces [] = refl
joined-split_spaces (c ∷ s) =
    let (first, rest, shape) = split_spaces-cons s in
    elim (Bool-cases (is_space c)) [
      | inl space ↦
          let tail : joined (first ∷ rest) ≡ s = ap joined (sym shape) ∙ joined-split_spaces s in
          let same : c ≡ blank = Char-path c blank (ground arith) in
          rw (space, shape)
            (nil-append (" " ++ joined (first ∷ rest))
              ∙ cons-append blank "" (joined (first ∷ rest))
              ∙ ap (◌∷◌ blank) (nil-append (joined (first ∷ rest)) ∙ tail)
              ∙ ap (λ d. d ∷ s) (sym same))
      | inr other ↦ rw other (joined-extend c (split_spaces s) ∙ ap (◌∷◌ c) (joined-split_spaces s))
    ]

space_free : List String → Bool
space_free [] = true
space_free (piece ∷ rest) = if has_space piece then false else space_free rest

space_free-extend :
    (c : Char) (pieces : List String)
    → is_space c ≡ false
    → space_free (extend c pieces) ≡ space_free pieces
unfolding space_free
space_free-extend c [] h = rw h refl
space_free-extend c (piece ∷ rest) h = rw h refl

split_spaces-space_free : (s : String) → space_free (split_spaces s) ≡ true
unfolding split_spaces space_free
split_spaces-space_free [] = refl
split_spaces-space_free (c ∷ s) =
    let rest = split_spaces-space_free s in
    elim (Bool-cases (is_space c)) [
      | inl space ↦ rw space rest
      | inr other ↦ rw other (space_free-extend c (split_spaces s) other ∙ rest)
    ]

no_space-head :
    (c : Char) (s : String)
    → has_space (c ∷ s) ≡ false
    → (is_space c ≡ false) × (has_space s ≡ false)
no_space-head c s h = ground arith

split_token : (t : String) → has_space t ≡ false → split_spaces t ≡ t ∷ []
unfolding split_spaces
split_token [] h = refl
split_token (c ∷ s) h =
    let (other, rest) = no_space-head c s h in
    let pieces : split_spaces s ≡ s ∷ [] = split_token s rest in rw (other, pieces) refl

split_header :
    (scheme t : String)
    → has_space scheme ≡ false
    → split_spaces (scheme ++ (" " ++ t)) ≡ scheme ∷ split_spaces t
unfolding split_spaces
split_header [] t h =
    ap split_spaces (nil-append (" " ++ t) ∙ cons-append blank "" t ∙ ap (◌∷◌ blank) (nil-append t))
split_header (c ∷ s) t h =
    let (other, rest) = no_space-head c s h in
    let pieces : split_spaces (s ++ (" " ++ t)) ≡ s ∷ split_spaces t = split_header s t rest in
    ap split_spaces (cons-append c s (" " ++ t)) ∙ rw (other, pieces) refl

bearer_token-some :
    (pieces : List String) (t : String) → bearer_token pieces ≡ some t → pieces ≡ "Bearer" ∷ t ∷ []
unfolding bearer_token
bearer_token-some [] t h = ground arith
bearer_token-some (scheme ∷ []) t h = ground arith
bearer_token-some (scheme ∷ token ∷ []) t h = ground (arith, eq_iff scheme "Bearer")
bearer_token-some (scheme ∷ token ∷ third ∷ rest) t h = ground arith

-- A header yields a token exactly if it is `Bearer`, a space, and the token, which has no space.
pub bearer_token_iff :
    (header t : String)
    → (bearer_token (split_spaces header) ≡ some t)
      ↔ ((header ≡ "Bearer" ++ (" " ++ t)) × (has_space t ≡ false))
unfolding bearer_token space_free
bearer_token_iff header t = (
  λ h.
      let pieces = bearer_token-some (split_spaces header) t h in
      let free : space_free ("Bearer" ∷ t ∷ []) ≡ true =
        ap space_free (sym pieces) ∙ split_spaces-space_free header in
      (sym (joined-split_spaces header) ∙ ap joined pieces, ground arith),
  λ (shape, free).
      let pieces : split_spaces header ≡ "Bearer" ∷ t ∷ [] =
        ap split_spaces shape
        ∙ split_header "Bearer" t refl
        ∙ ap (◌∷◌ "Bearer") (split_token t free) in
      ap bearer_token pieces,
)
