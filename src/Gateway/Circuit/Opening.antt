-- ===== src/Gateway/Circuit/Opening.antt =====
-- When a circuit opens, how long it blocks, and what closes it.
use open_aipoject.Prelude.{
  ℕ, String, Bool, [], ◌∷◌, ◌+◌, arith, eq_iff, ◌*◌, ◌≤◌, ◌<◌, ◌≡◌, refl, sym, ◌∙◌, true, false,
  Option, some, List, ◌++◌, str_eq, leb, length, ap, none,
}
use open_aipoject.Gateway.Circuit.{
  Environment, failure_threshold, window_seconds, cooldown_seconds, circuit_key, Item, Circuits,
  get_item, set_item, new_item, item_or_new, allow, record_success, failed_item, record_failure,
  record_response, allow_item,
}
use open_aipoject.Gateway.Events.{second, prune}

str_eq_refl : (s : String) → str_eq s s ≡ true
str_eq_refl s = ground (arith, eq_iff s s)

pub get-set :
    (key : String) (item : Item) (state : Circuits)
    → get_item key (set_item key item state) ≡ some item
get-set key item [] = ground (arith, str_eq_refl key)
get-set key item ((k, i) ∷ state) = ground (arith, str_eq_refl key, get-set key item state)

pub get-set_other :
    (key other : String) (item : Item) (state : Circuits)
    → str_eq key other ≡ false
    → get_item other (set_item key item state) ≡ get_item other state
get-set_other key other item [] d = ground arith
get-set_other key other item ((k, i) ∷ state) d =
    ground
      (arith, get-set_other key other item state, eq_iff k key, eq_iff key other, eq_iff k other)

-- Whether a call is let through, as a function of the entry.
abbrev pub lets_through : ℕ → Option Item → Bool
lets_through now none = true
lets_through now (some item) = leb item.open_until now

allow_item-lets :
    (now : ℕ) (key : String) (state : Circuits) (o : Option Item)
    → (allow_item now key state o).0 ≡ lets_through now o
allow_item-lets now key state none = refl
allow_item-lets now key state (some item) = ground arith

pub allow-lets :
    (now : ℕ) (provider model : String) (state : Circuits)
    → (allow now provider model state).0
      ≡ lets_through now (get_item (circuit_key provider model) state)
unfolding allow
allow-lets now provider model state = allow_item-lets now _ state _

-- The failures of a circuit, oldest first.
abbrev pub failures_of : String → String → Circuits → List ℕ
failures_of provider model state =
    (item_or_new (get_item (circuit_key provider model) state)).failures

opened_item :
    (env : Environment) (now t : ℕ) (item : Item)
    → failure_threshold env
      ≤ length (prune now (window_seconds env * second) (item.failures ++ (now ∷ [])))
    → lets_through t (some (failed_item env now item)) ≡ leb (now + cooldown_seconds env * second) t
opened_item env now t item h = ground arith

-- When the failure that is recorded fills the threshold with the failures of the window, calls of
-- the model are blocked until the cooldown is over, and let through from then on.
pub record_failure-opens :
    (env : Environment) (now t : ℕ) (provider model : String) (state : Circuits)
    → failure_threshold env
      ≤ length
          (prune now (window_seconds env * second) (failures_of provider model state ++ (now ∷ [])))
    → (allow t provider model (record_failure env now provider model state)).0
      ≡ leb (now + cooldown_seconds env * second) t
unfolding record_failure
record_failure-opens env now t provider model state h =
    allow-lets t provider model _
    ∙ ap (lets_through t) (get-set (circuit_key provider model) _ state)
    ∙ opened_item env now t (item_or_new (get_item (circuit_key provider model) state)) h

-- A failure below the threshold leaves open what lets calls through.
closed_item :
    (env : Environment) (now t : ℕ) (o : Option Item)
    → length (prune now (window_seconds env * second) ((item_or_new o).failures ++ (now ∷ [])))
      < failure_threshold env
    → lets_through t (some (failed_item env now (item_or_new o))) ≡ lets_through t o
closed_item env now t none h = ground arith
closed_item env now t (some item) h = ground arith

-- A failure that leaves fewer failures in the window than the threshold changes no answer.
pub record_failure-below :
    (env : Environment) (now t : ℕ) (provider model : String) (state : Circuits)
    → length
        (prune now (window_seconds env * second) (failures_of provider model state ++ (now ∷ [])))
      < failure_threshold env
    → (allow t provider model (record_failure env now provider model state)).0
      ≡ (allow t provider model state).0
unfolding record_failure
record_failure-below env now t provider model state h =
    allow-lets t provider model _
    ∙ ap (lets_through t) (get-set (circuit_key provider model) _ state)
    ∙ closed_item env now t (get_item (circuit_key provider model) state) h
    ∙ sym (allow-lets t provider model state)

-- A success lets calls through at once and forgets the failures.
pub record_success-closes :
    (t : ℕ) (provider model : String) (state : Circuits)
    → ((allow t provider model (record_success provider model state)).0 ≡ true)
      × (failures_of provider model (record_success provider model state) ≡ [])
unfolding record_success
record_success-closes t provider model state = (
  allow-lets t provider model _
      ∙ ap (lets_through t) (get-set (circuit_key provider model) new_item state)
      ∙ ground arith,
  ap (λ o. (item_or_new o).failures) (get-set (circuit_key provider model) new_item state),
)

responded :
    (env : Environment) (now : ℕ) (is_error : Bool) (provider model other : String)
    (state : Circuits)
    → str_eq (circuit_key provider model) other ≡ false
    → get_item other (record_response env now is_error provider model state) ≡ get_item other state
unfolding record_response record_failure record_success
responded env now true provider model other state d = get-set_other _ other _ state d
responded env now false provider model other state d = get-set_other _ other _ state d

asked :
    (now : ℕ) (provider model other : String) (state : Circuits)
    → str_eq (circuit_key provider model) other ≡ false
    → get_item other (allow now provider model state).1 ≡ get_item other state
unfolding allow
asked now provider model other state d = of_item (get_item (circuit_key provider model) state)
  where
    of_item :
        (o : Option Item)
        → get_item other (allow_item now (circuit_key provider model) state o).1
          ≡ get_item other state
    of_item none = refl
    of_item (some item) = ground (
      arith,
      get-set_other (circuit_key provider model) other (record item { open_until = 0 }) state,
    )

-- A response that is recorded for one circuit, a failure or a success, and a question whether it
-- lets a call through leave the answers on a circuit with another key as they were.
pub allow-isolation :
    (env : Environment) (now t : ℕ) (is_error : Bool)
    (provider model other_provider other_model : String) (state : Circuits)
    → str_eq (circuit_key provider model) (circuit_key other_provider other_model) ≡ false
    → ((allow t other_provider other_model
          (record_response env now is_error provider model state)).0
        ≡ (allow t other_provider other_model state).0)
      × ((allow t other_provider other_model (allow now provider model state).1).0
          ≡ (allow t other_provider other_model state).0)
allow-isolation env now t is_error provider model other_provider other_model state d = (
  allow-lets t other_provider other_model _
      ∙ ap (lets_through t) (responded env now is_error provider model _ state d)
      ∙ sym (allow-lets t other_provider other_model state),
  allow-lets t other_provider other_model _
      ∙ ap (lets_through t) (asked now provider model _ state d)
      ∙ sym (allow-lets t other_provider other_model state),
)
