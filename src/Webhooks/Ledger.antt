-- ===== src/Webhooks/Ledger.antt =====
-- The rows of billing_webhook_events: a row is never lost, keeps its payload hash, and never changes
-- again once its status is terminal.
use open_aipoject.Prelude.{
  String, ◌≡◌, refl, sym, ◌∙◌, inl, inr, Bool, true, false, Option, some, List, ◌∷◌, ◌++◌, str_eq,
  Bool-cases, [], none, if◌then◌else◌, arith, eq_iff,
}
use open_aipoject.Webhooks.Store.{EventStatus, EventRow, find_event, set_event}
use mathlib.Core.Path.{subst, ap}
use open_aipoject.Webhooks.Events.{is_terminal}

abbrev pub Frozen : Bool → EventRow → EventRow → Type 0
Frozen true a b = b ≡ a
Frozen false a b = Unit

abbrev pub RowLater : Option EventRow → Option EventRow → Type 0
RowLater none o = Unit
RowLater (some a) none = ⊥
RowLater (some a) (some b) =
    (b.payload_hash ≡ a.payload_hash) × Frozen (is_terminal a.processing_status) a b

abbrev pub Follows : List EventRow → List EventRow → Type 0
Follows es es' = (id : String) → RowLater (find_event id es) (find_event id es')

Frozen-same : (b : Bool) (a : EventRow) → Frozen b a a
Frozen-same true a = refl
Frozen-same false a = tt

row_same : (o : Option EventRow) → RowLater o o
row_same none = tt
row_same (some a) = (refl, Frozen-same (is_terminal a.processing_status) a)

Frozen-trans :
    (s : Bool) (a b c : EventRow)
    → is_terminal a.processing_status ≡ s
    → Frozen s a b
    → Frozen (is_terminal b.processing_status) b c
    → Frozen s a c
Frozen-trans true a b c e f g =
    subst (λ t. Frozen t b c) (ap (λ r. is_terminal r.processing_status) f ∙ e) g ∙ f
Frozen-trans false a b c e f g = tt

row_trans : (o p q : Option EventRow) → RowLater o p → RowLater p q → RowLater o q
row_trans none p q h k = tt
row_trans (some a) none q h k = absurd h
row_trans (some a) (some b) none h k = absurd k
row_trans (some a) (some b) (some c) h k =
    (k.0 ∙ h.0, Frozen-trans (is_terminal a.processing_status) a b c refl h.1 k.1)

pub Follows-same : (es : List EventRow) → Follows es es
Follows-same es id = row_same (find_event id es)

pub Follows-trans : (es fs gs : List EventRow) → Follows es fs → Follows fs gs → Follows es gs
Follows-trans es fs gs h k id =
    row_trans (find_event id es) (find_event id fs) (find_event id gs) (h id) (k id)

pub append-Follows : (es : List EventRow) (row : EventRow) → Follows es (es ++ (row ∷ []))
append-Follows [] row id = tt
append-Follows (e ∷ es) row id = elim (Bool-cases (str_eq e.provider_event_id id)) [
  | inl h ↦ rw h (row_same (some e))
  | inr h ↦ rw h (append-Follows es row id)
]

abbrev pub IsOpenRow : Option EventRow → Type 0
IsOpenRow none = Unit
IsOpenRow (some row) = is_terminal row.processing_status ≡ false

changed :
    (e : EventRow) (status : EventStatus) (message : Option String)
    → is_terminal e.processing_status ≡ false
    → RowLater (some e) (some (record e { processing_status = status; error_message = message }))
changed e status message h = (
  refl,
  subst (λ b. Frozen b e (record e { processing_status = status; error_message = message })) (sym h)
      tt,
)

pub set_event-Follows :
    (id : String) (status : EventStatus) (message : Option String) (es : List EventRow)
    → IsOpenRow (find_event id es)
    → Follows es (set_event id status message es)
set_event-Follows id status message [] h other = tt
set_event-Follows id status message (e ∷ es) h other =
    elim (Bool-cases (str_eq e.provider_event_id id)) [
      | inl k ↦ elim (Bool-cases (str_eq e.provider_event_id other)) [
        | inl l ↦
            rw (k, l)
              (changed e status message
                (subst (λ b. IsOpenRow (if b then some e else find_event id es)) k h))
        | inr l ↦ rw (k, l) (row_same (find_event other es))
      ]
      | inr k ↦ elim (Bool-cases (str_eq e.provider_event_id other)) [
        | inl l ↦ rw (k, l) (row_same (some e))
        | inr l ↦
            rw (k, l)
              (set_event-Follows id status message es
                (subst (λ b. IsOpenRow (if b then some e else find_event id es)) k h) other)
      ]
    ]

pub later_row :
    (a : EventRow) (o : Option EventRow)
    → RowLater (some a) o
    → (b : EventRow) × (o ≡ some b)
      × (b.payload_hash ≡ a.payload_hash)
      × Frozen (is_terminal a.processing_status) a b
later_row a none h = absurd h
later_row a (some b) h = (b, refl, h.0, h.1)

pub found_after_set :
    (id : String) (status : EventStatus) (message : Option String) (es : List EventRow)
    (row : EventRow)
    → find_event id es ≡ some row
    → find_event id (set_event id status message es)
      ≡ some (record row { processing_status = status; error_message = message })
found_after_set id status message [] row h = cc
found_after_set id status message (e ∷ es) row h =
    elim (Bool-cases (str_eq e.provider_event_id id)) [
      | inl k ↦ rw (k, k) (ground (arith, k))
      | inr k ↦
          rw (k, k)
            (found_after_set id status message es row
              (subst (λ b. (if b then some e else find_event id es) ≡ some row) k h))
    ]

pub found_after_append :
    (row : EventRow) (es : List EventRow)
    → find_event row.provider_event_id es ≡ none
    → find_event row.provider_event_id (es ++ (row ∷ [])) ≡ some row
found_after_append row [] h = rw ((eq_iff row.provider_event_id row.provider_event_id).1 refl) refl
found_after_append row (e ∷ es) h =
    elim (Bool-cases (str_eq e.provider_event_id row.provider_event_id)) [
      | inl k ↦ absurd (
          some_is_none e
            (subst (λ b. (if b then some e else find_event row.provider_event_id es) ≡ none) k h))
      | inr k ↦ rw k (
          found_after_append row es
            (subst (λ b. (if b then some e else find_event row.provider_event_id es) ≡ none) k h))
    ]
  where
    some_is_none : (x : EventRow) → some x ≡ none → ⊥
    some_is_none x h = cc

-- The rows of the other events stay as they were.
pub other_after_set :
    (id other : String) (status : EventStatus) (message : Option String) (es : List EventRow)
    → str_eq id other ≡ false
    → find_event other (set_event id status message es) ≡ find_event other es
other_after_set id other status message [] d = refl
other_after_set id other status message (e ∷ es) d = ground (
  arith,
  other_after_set id other status message es,
  eq_iff e.provider_event_id id,
  eq_iff e.provider_event_id other,
  eq_iff id other,
)

pub other_after_append :
    (row : EventRow) (other : String) (es : List EventRow)
    → str_eq row.provider_event_id other ≡ false
    → find_event other (es ++ (row ∷ [])) ≡ find_event other es
other_after_append row other [] d = ground arith
other_after_append row other (e ∷ es) d = ground (arith, other_after_append row other es)
