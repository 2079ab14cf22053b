-- ===== src/Gree/Unit/Commands.antt =====
-- gree.go: a command with a name that is not known is not sent.
use mathlib.Core.List.{Memᴰ}
use camonitor.Prelude.{
  ◌≡◌, refl, ap, ◌∙◌, sym, [], ◌∷◌, none, some, ℤ, Text, Map, Option-cases, inl, inr,
}
use camonitor.Gree.{Json, GreeClient, gree_column_for}
use camonitor.Gree.Cipher.{Aes}
use camonitor.Gree.Session.{Exchange, Handshake}
use camonitor.Gree.Unit.{translate, set, unknown_parameter}

translate-unknown :
    (params : Map ℤ) (k : Text) (v : ℤ)
    → Memᴰ (k, v) params
    → gree_column_for k ≡ none
    → translate params ≡ none
unfolding translate
translate-unknown [] k v m h = elim m [ ]
translate-unknown ((j, w) ∷ params) k v (Memᴰ.head e) h =
    let same : gree_column_for j ≡ none = ap (λ (p : Text × ℤ). gree_column_for p.0) (sym e) ∙ h in
    rw (same, translate) refl
translate-unknown ((j, w) ∷ params) k v (Memᴰ.tail m) h =
    let rest : translate params ≡ none = translate-unknown params k v m h in
    elim (Option-cases (gree_column_for j)) [
      | inl e ↦ rw (e, translate) refl
      | inr (col, e) ↦ rw (e, translate) (rw (rest, translate) refl)
    ]

-- A command that holds a parameter with a name that is not known, whatever else it holds and wherever in
-- the map it stands, fails as such: nothing is sent, and the client is as it was.
pub set_unknown :
    (json : Json) (aes : Aes) (h : Handshake) (x : Exchange) (params : Map ℤ) (c : GreeClient)
    (k : Text) (v : ℤ)
    → Memᴰ (k, v) params
    → gree_column_for k ≡ none
    → set json aes h x params c ≡ (c, some unknown_parameter, [])
unfolding set
set_unknown json aes h x params c k v m unknown =
    rw (translate-unknown params k v m unknown, set) refl
