-- ===== src/Webapi/RateLimit/Cap.antt =====
-- internal/webapi/ratelimit.go: the number of open streams in an interleaving.
use cronfoundry.Prelude.{
  refl, false, some, pos, ℕ, zero, suc, ◌+◌, ◌≤◌, ◌<◌, String, ◌≡◌, List, [], ◌∷◌, arith, str_eq,
  eq_iff, if◌then◌else◌, ◌⊎◌,
}
use cronfoundry.Webapi.RateLimit.{
  sse_cap, Phase, arrived, admitted, over, served, refused, Request, Counters, act, put_phase, onto,
  move, run,
}

abbrev pub is_admitted : Phase → ℕ
is_admitted admitted = 1
is_admitted _ = 0

abbrev pub is_counted : Phase → ℕ
is_counted admitted = 1
is_counted over = 1
is_counted _ = 0

-- how many requests of a client are in the handler
abbrev pub streams : String → List Request → ℕ
streams ip [] = 0
streams ip (r ∷ rs) = (if str_eq r.ip ip then is_admitted r.phase else 0) + streams ip rs

-- how many are counted
abbrev pub counted : String → List Request → ℕ
counted ip [] = 0
counted ip (r ∷ rs) = (if str_eq r.ip ip then is_counted r.phase else 0) + counted ip rs

-- What one step changes: the counter goes with the requests that are counted, and a request is
-- admitted only below the cap.
abbrev Moves : ℕ → String → List Request → Counters → List Request × Counters → Type 0
Moves cap ip rs c (rs', c') =
    (c' ip + counted ip rs ≡ c ip + counted ip rs')
    × ((streams ip rs' ≤ streams ip rs) ⊎ (c' ip ≤ cap))

act-Moves :
    (cap : ℕ) (ip owner : String) (phase : Phase) (rs : List Request) (c : Counters)
    → counted ip (record { ip = owner; phase = phase } ∷ rs) ≤ c ip
    → Moves cap ip
        (record { ip = owner; phase = phase } ∷ rs)
        c
        (onto rs (put_phase (record { ip = owner; phase = phase }) (act (some cap) owner phase c)))
unfolding act
act-Moves cap ip owner arrived rs c h = ground (arith, eq_iff owner ip)
act-Moves cap ip owner admitted rs c h = ground (arith, eq_iff owner ip)
act-Moves cap ip owner over rs c h = ground (arith, eq_iff owner ip)
act-Moves cap ip owner served rs c h = ground (arith, eq_iff owner ip)
act-Moves cap ip owner refused rs c h = ground (arith, eq_iff owner ip)

move-Moves :
    (cap i : ℕ) (ip : String) (rs : List Request) (c : Counters)
    → counted ip rs ≤ c ip
    → Moves cap ip rs c (move (some cap) i rs c)
unfolding move
move-Moves cap i ip [] c h = ground arith
move-Moves cap zero ip (r ∷ rs) c h = act-Moves cap ip r.ip r.phase rs c h
move-Moves cap (suc i) ip (r ∷ rs) c h = ground (arith, eq_iff r.ip ip, move-Moves cap i ip rs c)

admitted-counted : (phase : Phase) → is_admitted phase ≤ is_counted phase
admitted-counted arrived = ground arith
admitted-counted admitted = ground arith
admitted-counted over = ground arith
admitted-counted served = ground arith
admitted-counted refused = ground arith

streams-counted : (ip : String) (rs : List Request) → streams ip rs ≤ counted ip rs
streams-counted ip [] = ground arith
streams-counted ip (r ∷ rs) = ground (arith, admitted-counted r.phase, streams-counted ip rs)

-- A client's counter is the number of its counted requests, and its streams are within the cap.
abbrev pub IsCapped : ℕ → String → List Request × Counters → Type 0
IsCapped cap ip (rs, c) = (c ip ≡ counted ip rs) × (streams ip rs ≤ cap)

move-IsCapped :
    (cap i : ℕ) (ip : String) (rs : List Request) (c : Counters)
    → IsCapped cap ip (rs, c)
    → IsCapped cap ip (move (some cap) i rs c)
move-IsCapped cap i ip rs c h =
    let m = move-Moves cap i ip rs c in
    let s = streams-counted ip (move (some cap) i rs c).0 in ground arith

run_some-IsCapped :
    (cap : ℕ) (is : List ℕ) (ip : String) (rs : List Request) (c : Counters)
    → IsCapped cap ip (rs, c)
    → IsCapped cap ip (run (some cap) is (rs, c))
unfolding run
run_some-IsCapped cap [] ip rs c h = h
run_some-IsCapped cap (i ∷ is) ip rs c h =
    run_some-IsCapped cap is ip (move (some cap) i rs c).0 (move (some cap) i rs c).1
      (move-IsCapped cap i ip rs c h)

sse_cap-pos : (cap : ℕ) → 0 < cap → sse_cap false (pos cap) ≡ some cap
unfolding sse_cap
sse_cap-pos zero h = absurd (omega arith)
sse_cap-pos (suc n) h = refl

-- Where the limiter is not disabled and its cap is positive: however the steps of the concurrent
-- requests interleave, from a state with no stream beyond the cap in which a client's counter is the
-- number of its requests that are counted, the counter is still that number, and no more of the
-- client's streams are open than the cap allows.
pub run-IsCapped :
    (cap : ℕ) (is : List ℕ) (ip : String) (rs : List Request) (c : Counters)
    → 0 < cap
    → IsCapped cap ip (rs, c)
    → IsCapped cap ip (run (sse_cap false (pos cap)) is (rs, c))
run-IsCapped cap is ip rs c h s = rw (sse_cap-pos cap h) (run_some-IsCapped cap is ip rs c s)

-- After any interleaving from such a state, a client with fewer counted requests than the cap gets
-- its next request admitted: the requests that have ended have given their places back.
pub run-admits :
    (cap : ℕ) (is : List ℕ) (ip : String) (rs : List Request) (c : Counters)
    → IsCapped cap ip (rs, c)
    → counted ip (run (sse_cap false (pos cap)) is (rs, c)).0 < cap
    → (act (sse_cap false (pos cap)) ip arrived (run (sse_cap false (pos cap)) is (rs, c)).1).0
      ≡ admitted
unfolding act
run-admits cap is ip rs c h free =
    let one = sse_cap-pos cap (omega (arith, free)) in
    let below : counted ip (run (some cap) is (rs, c)).0 < cap = rw one at free in
    let (same, few) = run_some-IsCapped cap is ip rs c h in rw one (ground (arith, same, below))
