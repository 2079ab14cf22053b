-- ===== src/Gree/Unit/Readings.antt =====
-- gree.go: what the unit was told to be is what its status shows.
use mathlib.Core.Path.{subst}
use camonitor.Prelude.{
  ◌≡◌, refl, ap, ◌∙◌, sym, Bool, true, false, ◌||◌, inl, inr, List, [], ◌∷◌, Option, none, some,
  map, arith, if◌then◌else◌, Bool-cases, Option-cases, ℤ, pos, Text, codes, text_eq, text_eq-to,
  text_eq_of, Map, lookup, put, lookup-put, All,
}
use camonitor.Clock.{Time}
use camonitor.Gree.{Scalar, text, number, GreeStatus, status_columns, gree_column_for, column_table}
use camonitor.Gree.Unit.{read_columns, column_name, value_of, value_or_zero, status_of, translate}

-- What a unit holds, by columns, and its answer to a status request.
abbrev pub UnitState : Type 0
UnitState = Text → ℤ

abbrev answer : UnitState → List Text → List Scalar
answer unit cols = map (λ c. number (unit c)) cols

unfoldable pub reading : UnitState → Time → GreeStatus
reading unit now =
    status_of (read_columns (map text status_columns) (answer unit status_columns) []) now

-- A unit that takes a command.
unfoldable pub told : List Text → List ℤ → UnitState → UnitState
told [] p unit = unit
told (col ∷ opt) [] unit = unit
told (col ∷ opt) (v ∷ p) unit = λ k. if text_eq col k then v else told opt p unit k

-- The field of the status that shows a parameter.
unfoldable pub shown : Text → GreeStatus → ℤ
shown name st =
    if text_eq name (codes "power")
    then st.power
    else if text_eq name (codes "mode")
    then st.mode
    else if text_eq name (codes "temp")
    then st.set_temp
    else if text_eq name (codes "fan")
    then st.fan_speed
    else if text_eq name (codes "air")
    then st.air
    else if text_eq name (codes "health")
    then st.health
    else if text_eq name (codes "sleep")
    then st.sleep
    else if text_eq name (codes "light")
    then st.light
    else if text_eq name (codes "swing")
    then st.swing_v
    else if text_eq name (codes "quiet")
    then st.quiet
    else if text_eq name (codes "turbo")
    then st.turbo
    else if text_eq name (codes "energy")
    then st.energy_save
    else if text_eq name (codes "temp_unit")
    then st.temp_unit
    else pos 0

All-lookup :
    {V : Type 0} (P : Text × V → Type 0) (m : Map V) (k : Text) (v : V)
    → All P m
    → lookup k m ≡ some v
    → P (k, v)
unfolding lookup
All-lookup P [] k v h e = absurd (cc)
All-lookup P ((j, w) ∷ m) k v h e = elim (Bool-cases (text_eq j k)) [
  | inl same ↦
      let key : j ≡ k = text_eq-to j k same in
      let val : w ≡ v = ground (arith, e, same) in
      subst P (ap (λ a. (a, w)) key ∙ ap (λ b. (k, b)) val) h.0
  | inr differs ↦ All-lookup P m k v h.1 (ground (arith, e, differs))
]

abbrev is_in : Text → List Text → Bool
is_in k [] = false
is_in k (j ∷ js) = text_eq j k || is_in k js

-- The name of a column: the table read the other way.
name_of : Text → Map Text → Option Text
name_of col [] = none
name_of col ((n, c) ∷ m) = if text_eq c col then some n else name_of col m

-- Each entry of the table names a column that the status asks for, no other entry's, and the field that
-- shows it.
table_asked : All (λ (e : Text × Text). is_in e.1 status_columns ≡ true) column_table
unfolding status_columns text_eq
table_asked = (
  refl,
  (
    refl,
    (refl, (refl, (refl, (refl, (refl, (refl, (refl, (refl, (refl, (refl, (refl, tt))))))))))),
  ),
)

table_named : All (λ (e : Text × Text). name_of e.1 column_table ≡ some e.0) column_table
unfolding text_eq name_of
table_named = (
  refl,
  (
    refl,
    (refl, (refl, (refl, (refl, (refl, (refl, (refl, (refl, (refl, (refl, (refl, tt))))))))))),
  ),
)

table_shown :
    (vals : Map ℤ) (now : Time)
    → All (λ (e : Text × Text). shown e.0 (status_of vals now) ≡ value_of vals e.1) column_table
unfolding shown status_of text_eq
table_shown vals now = (
  refl,
  (
    refl,
    (refl, (refl, (refl, (refl, (refl, (refl, (refl, (refl, (refl, (refl, (refl, tt))))))))))),
  ),
)

some_injective : {a b : Text} → some a ≡ some b → a ≡ b
some_injective h = cc

module _ (name col : Text) (known : gree_column_for name ≡ some col) where
  asked : is_in col status_columns ≡ true
  unfolding gree_column_for
  asked = All-lookup (λ e. is_in e.1 status_columns ≡ true) column_table name col table_asked known

  named : name_of col column_table ≡ some name
  unfolding gree_column_for
  named =
      All-lookup (λ e. name_of e.1 column_table ≡ some e.0) column_table name col table_named known

  shows : (vals : Map ℤ) (now : Time) → shown name (status_of vals now) ≡ value_of vals col
  unfolding gree_column_for
  shows vals now =
      All-lookup (λ e. shown e.0 (status_of vals now) ≡ value_of vals e.1) column_table name col
        (table_shown vals now) known

lookup-read_columns :
    (unit : UnitState) (col : Text) (cols : List Text) (vals : Map ℤ)
    → lookup col (read_columns (map text cols) (answer unit cols) vals)
      ≡ (if is_in col cols then some (unit col) else lookup col vals)
unfolding read_columns column_name
lookup-read_columns unit col [] vals = refl
lookup-read_columns unit col (c ∷ cols) vals =
    let rest = lookup-read_columns unit col cols (put c (unit c) vals) in
    let here = lookup-put c col (unit c) vals in
    let same : text_eq c col ≡ true → unit c ≡ unit col = λ h. ap unit (text_eq-to c col h) in
    ground (arith, rest, here, same)

value_of-reading :
    (unit : UnitState) (name col : Text)
    → gree_column_for name ≡ some col
    → value_of (read_columns (map text status_columns) (answer unit status_columns) []) col
      ≡ unit col
unfolding value_of
value_of-reading unit name col known =
    let e : lookup col (read_columns (map text status_columns) (answer unit status_columns) [])
        ≡ some (unit col) =
      lookup-read_columns unit col status_columns []
      ∙ ap (λ (b : Bool). if b then some (unit col) else lookup col []) (asked name col known) in
    ap value_or_zero e

-- Names with one column are one name.
same_name :
    (k name ck col : Text)
    → gree_column_for k ≡ some ck
    → gree_column_for name ≡ some col
    → text_eq ck col ≡ text_eq k name
same_name k name ck col hk hn = elim (Bool-cases (text_eq ck col)) [
  | inl e ↦
      let c : ck ≡ col = text_eq-to ck col e in
      let n : k ≡ name =
        some_injective
          (sym (named k ck hk) ∙ ap (λ t. name_of t column_table) c ∙ named name col hn) in
      e ∙ sym (text_eq_of k name n)
  | inr e ↦ elim (Bool-cases (text_eq k name)) [
    | inl f ↦
        let n : k ≡ name = text_eq-to k name f in
        let c : ck ≡ col = some_injective (sym hk ∙ ap gree_column_for n ∙ hn) in
        text_eq_of ck col c ∙ sym f
    | inr f ↦ e ∙ sym f
  ]
]

-- The value that a command gives a parameter, or what was there.
abbrev pub given : Option ℤ → ℤ → ℤ
given none old = old
given (some v) old = v

given_either :
    (b : Bool) (v old other : ℤ) (o : Option ℤ)
    → other ≡ given o old
    → (if b then v else other) ≡ given (if b then some v else o) old
given_either true v old other o h = refl
given_either false v old other o h = h

told-given :
    (params : Map ℤ) (unit : UnitState) (opt : List Text) (p : List ℤ) (name col : Text)
    → gree_column_for name ≡ some col
    → translate params ≡ some (opt, p)
    → told opt p unit col ≡ given (lookup name params) (unit col)
unfolding translate lookup told
told-given [] unit opt p name col known t = let e : [] ≡ opt = cc in rw (← e) refl
told-given ((k, v) ∷ params) unit opt p name col known t = elim (Option-cases (gree_column_for k)) [
  | inl unknown ↦ absurd (ground (arith, t, unknown))
  | inr (ck, kept) ↦ elim (Option-cases (translate params)) [
    | inl none_of ↦ absurd (ground (arith, t, kept, none_of))
    | inr ((opt', p'), rest) ↦
        let a : ck ∷ opt' ≡ opt = ground (arith, t, kept, rest) in
        let b : v ∷ p' ≡ p = ground (arith, t, kept, rest) in
        let ih = told-given params unit opt' p' name col known rest in
        rw (← a, ← b)
          (ap (λ (c : Bool). if c then v else told opt' p' unit col)
              (same_name k name ck col kept known)
            ∙ given_either (text_eq k name) v (unit col) (told opt' p' unit col)
                (lookup name params) ih)
  ]
]

-- A parameter that a unit takes is shown by the next status that is read from it: each field shows what
-- the command gave for its name, and what was there if the command did not name it. The unit answers for
-- every column that it is asked for, and a command holds each name once.
pub shown-set :
    (params : Map ℤ) (unit : UnitState) (opt : List Text) (p : List ℤ) (name col : Text)
    (now : Time)
    → gree_column_for name ≡ some col
    → translate params ≡ some (opt, p)
    → shown name (reading (told opt p unit) now) ≡ given (lookup name params) (unit col)
unfolding reading
shown-set params unit opt p name col now known t =
    shows name col known
      (read_columns (map text status_columns) (answer (told opt p unit) status_columns) []) now
    ∙ value_of-reading (told opt p unit) name col known
    ∙ told-given params unit opt p name col known t
