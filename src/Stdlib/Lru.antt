-- ===== src/Stdlib/Lru.antt =====
-- utils/stdlib/lru.go. `container/list` is a list of elements, front first. An element is named by
-- the number under which it was allocated, so the index `items` holds pointers into the list as
-- the source's map does; `next` is the number of the next allocation. `evicted` records the calls
-- of the eviction hook, latest first; `hook` says whether one is installed.
-- The model is a fold over one caller's operations: `SafeLRU` runs each of them under its lock.
pub mod Recency
pub mod Links
pub mod Entries
pub mod Reads
pub mod Removal
pub mod Writes
pub mod Bound
use mathlib.Core.Option
use photon.Base.{
  ℕ, ◌+◌, Option, none, some, List, [], ◌∷◌, ◌++◌, map, Bool, true, false, ◌&&◌, ltb, if◌then◌else◌,
  length, ite, ℕ_discrete,
}
use photon.Base.Dict
use photon.Base.Dict.{Dict}

-- An element of the list with its payload, the source's `pair`.
pub record Element (K V : Type 0) : Type 0 where
  pub id : ℕ
  pub key : K
  pub val : V

pub record Lru (K V : Type 0) : Type 0 where
  pub cap : ℕ
  pub ll : List (Element K V)
  pub items : Dict K ℕ
  pub next : ℕ
  pub hook : Bool
  pub evicted : List (K × V)

module _ {K V : Type 0} where
  -- The element behind a pointer.
  unfoldable pub find_id : ℕ → List (Element K V) → Option (Element K V)
  find_id i [] = none
  find_id i (x ∷ xs) = ite (ℕ_discrete x.id i) (some x) (find_id i xs)

  -- `list.Remove`
  unfoldable pub unlink : ℕ → List (Element K V) → List (Element K V)
  unlink i [] = []
  unlink i (x ∷ xs) = ite (ℕ_discrete x.id i) xs (x ∷ unlink i xs)

  -- `list.MoveToFront`
  unfoldable pub move_to_front : ℕ → List (Element K V) → List (Element K V)
  move_to_front i xs = elim (find_id i xs) [ none ↦ xs | some x ↦ x ∷ unlink i xs ]

  -- `e.Value = …`
  unfoldable pub set_value : ℕ → K → V → List (Element K V) → List (Element K V)
  set_value i k v [] = []
  set_value i k v (x ∷ xs) =
      ite (ℕ_discrete x.id i) (record x { key = k; val = v } ∷ xs) (x ∷ set_value i k v xs)

  -- `list.Back`
  unfoldable pub back : List (Element K V) → Option (Element K V)
  back [] = none
  back (x ∷ []) = some x
  back (x ∷ y ∷ xs) = back (y ∷ xs)

  -- `NewLRU`: a negative capacity is a panic, and capacities here are natural numbers.
  unfoldable pub new_lru : ℕ → Bool → Lru K V
  new_lru capacity on_evict = record {
    cap = capacity;
    ll = [];
    items = [];
    next = 0;
    hook = on_evict;
    evicted = [];
  }

  unfoldable pub len : Lru K V → ℕ
  len c = length c.ll

  unfoldable pub capacity : Lru K V → ℕ
  capacity c = c.cap

  unfoldable pub keys : Lru K V → List K
  keys c = map (λ e. e.key) c.ll

  unfoldable pub tail_key : Lru K V → Option K
  tail_key c = Option.map (λ e. e.key) (back c.ll)

  -- `evict` runs only where a hook is installed.
  unfoldable pub call_evict : K → V → Lru K V → Lru K V
  call_evict k v c = if c.hook then record c { evicted = (k, v) ∷ c.evicted } else c

  -- The calls of the loop in `Purge` run from the back to the front.
  unfoldable pub purge : Lru K V → Lru K V
  purge c = record c {
    ll = [];
    items = [];
    evicted = if c.hook then map (λ e. (e.key, e.val)) c.ll ++ c.evicted else c.evicted;
  }

module _ {K V : Type 0} (dec : Discrete K) where
  unfoldable pub get : K → Lru K V → Lru K V × Option V
  get key c = elim (Dict.get dec key c.items) [
    | none ↦ (c, none)
    | some e ↦ (record c { ll = move_to_front e c.ll }, Option.map (λ x. x.val) (find_id e c.ll))
  ]

  unfoldable pub peek : K → Lru K V → Option V
  peek key c = elim (Dict.get dec key c.items) [
    | none ↦ none
    | some e ↦ Option.map (λ x. x.val) (find_id e c.ll)
  ]

  -- The payload of a removed element stays readable; it is read before the removal here.
  unfoldable pub remove_element : ℕ → Bool → Lru K V → Lru K V
  unfolding call_evict
  remove_element e call c = elim (find_id e c.ll) [
    | none ↦ c
    | some p ↦
        let c' = record c { ll = unlink e c.ll; items = Dict.del dec p.key c.items } in
        if call then call_evict p.key p.val c' else c'
  ]

  unfoldable pub evict_tail : Lru K V → Lru K V
  evict_tail c = elim (back c.ll) [ none ↦ c | some e ↦ remove_element e.id true c ]

  -- `PushFront` of a new element, entered in the index.
  unfoldable pub insert_front : K → V → Lru K V → Lru K V
  insert_front key value c = record c {
    ll = record { id = c.next; key = key; val = value } ∷ c.ll;
    items = Dict.put dec key c.next c.items;
    next = c.next + 1;
  }

  unfoldable pub set : K → V → Lru K V → Lru K V × Bool
  set key value c = elim (Dict.get dec key c.items) [
    | some e ↦ (record c { ll = move_to_front e (set_value e key value c.ll) }, false)
    | none ↦
        let c' = insert_front key value c in
        if ltb 0 c'.cap && ltb c'.cap (len c') then (evict_tail c', true) else (c', false)
  ]

  unfoldable pub delete : K → Lru K V → Lru K V × Bool
  delete key c = elim (Dict.get dec key c.items) [
    | none ↦ (c, false)
    | some e ↦ (remove_element e true c, true)
  ]
