-- ===== src/Session/Interceptors.antt =====
-- pkg/session/fs-connection-interceptor.go: the connections of the sessions, and the number of them
-- that a session may have. The parts between which other goroutines may run are steps of their own.
pub mod Counted
use bifroest.Prelude.{
  ℕ, zero, suc, ◌+◌, ◌-◌, Bool, true, false, not, ◌&&◌, List, [], ◌∷◌, Option, none, some, Bytes,
  bytes_eq, ltb, ◌==◌, ◌≡◌, if◌then◌else◌,
}

-- `fsConnectionInterceptors`: the stack that is registered for a session, by its number. The map of a
-- flow is there exactly when it has an entry.
abbrev pub Registered : Type 0
Registered = List ((Bytes × ℕ) × ℕ)

-- The stacks are numbered. A goroutine that runs `ConnectionInterceptor` holds the mutex from the
-- first to the second part, with the stack and the number that `active.Add(1)` gave it.
pub record World : Type 0 where
  pub registered : Registered
  pub next : ℕ
  pub active : ℕ → ℕ
  pub session : ℕ → Bytes × ℕ
  pub creating : Option (ℕ × ℕ)
  -- The stacks of the open interceptors, and of those whose closing waits for the mutex.
  pub open_ones : List ℕ
  pub closing : List ℕ
  pub panicked : Bool

-- What a goroutine does next; of open or closing interceptors it is the one at a position.
pub data Event : Type 0 where
  create : Bytes → ℕ → Event
  created : Event
  close : ℕ → Event
  closed : ℕ → Event

abbrev pub initial : World
initial = record {
  registered = [];
  next = 0;
  active = λ k. 0;
  session = λ k. ([], 0);
  creating = none;
  open_ones = [];
  closing = [];
  panicked = false;
}

abbrev pub is_session : Bytes → ℕ → Bytes × ℕ → Bool
is_session flow id (f, i) = bytes_eq flow f && id == i

unfoldable pub registered_for : Bytes → ℕ → Registered → Option ℕ
registered_for flow id [] = none
registered_for flow id ((s, k) ∷ m) =
    let rest = registered_for flow id m in if is_session flow id s then some k else rest

unfoldable pub unregister : Bytes → ℕ → Registered → Registered
unregister flow id [] = []
unregister flow id ((s, k) ∷ m) =
    let rest = unregister flow id m in if is_session flow id s then rest else (s, k) ∷ rest

unfoldable pub has_by_flow : Bytes → Registered → Bool
has_by_flow flow [] = false
has_by_flow flow (((f, i), k) ∷ m) =
    let rest = has_by_flow flow m in if bytes_eq flow f then true else rest

-- The element at a position, and the others.
unfoldable pub take_out : ℕ → List ℕ → Option (ℕ × List ℕ)
take_out n [] = none
take_out zero (k ∷ ks) = some (k, ks)
take_out (suc n) (k ∷ ks) = elim (take_out n ks) [ none ↦ none | some (j, js) ↦ some (j, k ∷ js) ]

abbrev pub set_active : ℕ → ℕ → (ℕ → ℕ) → ℕ → ℕ
set_active k n active j = if k == j then n else active j

-- `active.Add(1)`, at the start of `create`
abbrev pub add_active : ℕ → World → World
add_active k w = record w {
  active = set_active k (w.active k + 1) w.active;
  creating = some (k, w.active k + 1);
}

abbrev pub new_stack : Bytes → ℕ → World → World
new_stack flow id w = record w {
  registered = ((flow, id), w.next) ∷ w.registered;
  next = w.next + 1;
  active = set_active w.next 0 w.active;
  session = λ k. if w.next == k then (flow, id) else w.session k;
}

-- `ConnectionInterceptor`, up to `active.Add(1)`
unfoldable pub start_create : Bytes → ℕ → World → Option World
unfolding registered_for
start_create flow id w = elim w.creating [
  | some _ ↦ none
  | none ↦ elim (registered_for flow id w.registered) [
    | some k ↦ some (add_active k w)
    | none ↦ some (add_active w.next (new_stack flow id w))
  ]
]

-- The rest of `create`, with the limit, which is none at 0.
unfoldable pub finish_create : ℕ → World → Option World
finish_create max w = elim w.creating [
  | none ↦ none
  | some (k, n) ↦
      if ltb 0 max && ltb max n
      then some (record w { active = set_active k (w.active k - 1) w.active; creating = none })
      else some (record w { open_ones = k ∷ w.open_ones; creating = none })
]

-- `close`, up to the mutex
unfoldable pub start_close : ℕ → World → Option World
unfolding take_out
start_close position w = elim (take_out position w.open_ones) [
  | none ↦ none
  | some (k, others) ↦
      let w' = record w { active = set_active k (w.active k - 1) w.active; open_ones = others } in
      if w.active k == 0
      then some (record w' { panicked = true })
      else if ltb 0 (w.active k - 1)
      then some w'
      else some (record w' { closing = k ∷ w.closing })
]

-- The rest of `close`, with the mutex
unfoldable pub finish_close : ℕ → World → Option World
unfolding take_out has_by_flow unregister
finish_close position w = elim w.creating [
  | some _ ↦ none
  | none ↦ elim (take_out position w.closing) [
    | none ↦ none
    | some (k, others) ↦
        let (flow, id) = w.session k in
        if has_by_flow flow w.registered
        then some (record w { registered = unregister flow id w.registered; closing = others })
        else some (record w { panicked = true; closing = others })
  ]
]

-- No step where the goroutine waits, or after a panic.
unfoldable pub step : ℕ → Event → World → Option World
unfolding start_create finish_create start_close finish_close
step max e w = if w.panicked then none else elim e [
  | create flow id ↦ start_create flow id w
  | created ↦ finish_create max w
  | close position ↦ start_close position w
  | closed position ↦ finish_close position w
]

-- The worlds that any goroutines can lead to, in any order.
pub data Reachable (max : ℕ) : World → Type 0 where
  at_first : (w : World) → w ≡ initial → Reachable max w
  after : (e : Event) (w w' : World) → Reachable max w → step max e w ≡ some w' → Reachable max w'
