-- ===== src/Webapi/RateLimit.antt =====
-- internal/webapi/ratelimit.go: the cap on concurrent event streams. The requests of all clients
-- run at once; each makes its atomic additions in turn, in any order.
pub mod Cap
use cronfoundry.Prelude.{
  ℤ, pos, negsuc, ℕ, zero, suc, ◌-◌, String, Bool, true, false, Option, none, some, List, [], ◌∷◌,
  ltb, str_eq, if◌then◌else◌,
}

-- Where a request stands: before the first addition; in the handler; counted, but over the cap;
-- and after the second addition, served or refused.
pub data Phase : Type 0 where
  arrived admitted over served refused : Phase

pub record Request : Type 0 where
  pub ip : String
  pub phase : Phase

-- rl.sseConcurrent: the counter of each client, 0 where none is stored yet
abbrev pub Counters : Type 0
Counters = String → ℕ

abbrev pub set_counter : String → ℕ → Counters → Counters
set_counter ip v c j = if str_eq ip j then v else c j

-- the cap that SSE enforces: without one it returns the handler as it is, which counts nothing
unfoldable pub sse_cap : Bool → ℤ → Option ℕ
sse_cap true n = none
sse_cap false (pos zero) = none
sse_cap false (pos (suc n)) = some (suc n)
sse_cap false (negsuc n) = none

-- The next atomic step of one request: AddInt64(counter, 1) and its comparison with the cap, or
-- AddInt64(counter, -1), at once over the cap and deferred to the handler's return otherwise. Without
-- a cap the handler runs and nothing is counted, so no request comes to be over one.
unfoldable pub act : Option ℕ → String → Phase → Counters → Phase × Counters
act (some cap) ip arrived c =
    let v = suc (c ip) in (if ltb cap v then over else admitted, set_counter ip v c)
act (some cap) ip admitted c = (served, set_counter ip (c ip - 1) c)
act (some cap) ip over c = (refused, set_counter ip (c ip - 1) c)
act (some cap) ip served c = (served, c)
act (some cap) ip refused c = (refused, c)
act none ip arrived c = (admitted, c)
act none ip admitted c = (served, c)
act none ip over c = (over, c)
act none ip served c = (served, c)
act none ip refused c = (refused, c)

abbrev pub put_phase : Request → Phase × Counters → Request × Counters
put_phase r (p, c) = (record r { phase = p }, c)

abbrev pub push : Request → List Request × Counters → List Request × Counters
push r (rs, c) = (r ∷ rs, c)

abbrev pub onto : List Request → Request × Counters → List Request × Counters
onto rs (r, c) = (r ∷ rs, c)

-- the request at a position makes its step
unfoldable pub move : Option ℕ → ℕ → List Request → Counters → List Request × Counters
move cap i [] c = ([], c)
move cap zero (r ∷ rs) c = onto rs (put_phase r (act cap r.ip r.phase c))
move cap (suc i) (r ∷ rs) c = push r (move cap i rs c)

-- an interleaving: which request steps next
unfoldable pub run : Option ℕ → List ℕ → List Request × Counters → List Request × Counters
run cap [] (rs, c) = (rs, c)
run cap (i ∷ is) (rs, c) = run cap is (move cap i rs c)
