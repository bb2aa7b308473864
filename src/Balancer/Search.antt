-- ===== src/Balancer/Search.antt =====
-- The search for a port ends, and finds the smallest free port of the range if there is one.
use postgreslet.Prelude.{
  ℕ, zero, suc, ◌+◌, ◌-◌, ◌^◌, ◌≤◌, ◌<◌, ◌≡◌, ◌≢◌, ltb→lt, ◌⊎◌, inl, inr, true, false, List, arith,
  ltb, contains, nat_eq, Bool-cases,
}
use postgreslet.Prelude.Int32.{add_int32, biased, lt_int32}
use postgreslet.Balancer.Socket.{Search, found, exhausted, out_of_fuel, search_port, free_port}

-- A step of the loop moves on by one, as long as the test holds: the end is no port beyond which
-- the counter could wrap.
biased_step_lt :
    (port end : ℕ) → biased port < biased end → biased (add_int32 port 1) ≡ suc (biased port)
biased_step_lt port end h = omega arith

biased-step :
    (port end : ℕ) → lt_int32 port end ≡ true → biased (add_int32 port 1) ≡ suc (biased port)
biased-step port end h = biased_step_lt port end (ltb→lt _ _ h)

search_port-ends :
    (fuel port end : ℕ) (used : List ℕ)
    → 0 < fuel
    → biased end < biased port + fuel
    → search_port fuel port end used ≢ out_of_fuel
unfolding search_port
search_port-ends zero port end used pos h = absurd (omega arith)
search_port-ends (suc fuel) port end used pos h = elim (Bool-cases (lt_int32 port end)) [
  | inl more ↦ elim (Bool-cases (contains used port)) [
    | inl taken ↦
        rw (more, taken)
          (search_port-ends fuel (add_int32 port 1) end used
            (omega (arith, ltb→lt (biased port) (biased end) more))
            (omega (arith, biased-step port end more)))
    | inr free ↦ rw (more, free) (λ e. cc)
  ]
  | inr stop ↦ rw stop (λ e. cc)
]

-- The search ends for every range, also for one that wraps, and whatever ports are in use.
pub free_port-ends : (start size : ℕ) (used : List ℕ) → free_port start size used ≢ out_of_fuel
unfolding free_port
free_port-ends start size used =
    search_port-ends (suc (biased (add_int32 start size) - biased start)) start
      (add_int32 start size) used (omega arith) (omega arith)

-- What the search of a range has to return.
abbrev pub IsSmallestFree : ℕ → ℕ → List ℕ → Search → Type 0
IsSmallestFree start end used (found port) =
    (start ≤ port)
    × (port < end)
    × (contains used port ≡ false)
    × ((other : ℕ) → start ≤ other → other < port → contains used other ≡ true)
IsSmallestFree start end used exhausted =
    (port : ℕ) → start ≤ port → port < end → contains used port ≡ true
IsSmallestFree start end used out_of_fuel = ⊥

from_next : (port other : ℕ) → port ≤ other → (other ≡ port) ⊎ (port + 1 ≤ other)
from_next port other h = grind arith

taken_from :
    (used : List ℕ) (port other : ℕ)
    → contains used port ≡ true
    → port ≤ other
    → (port + 1 ≤ other → contains used other ≡ true)
    → contains used other ≡ true
taken_from used port other taken h rest = elim (from_next port other h) [
  | inl e ↦ rw e taken
  | inr above ↦ rest above
]

-- A port that is taken can be put in front of the range.
IsSmallestFree-extend :
    (port end : ℕ) (used : List ℕ) (r : Search)
    → contains used port ≡ true
    → IsSmallestFree (port + 1) end used r
    → IsSmallestFree port end used r
IsSmallestFree-extend port end used (found q) taken (low, high, free, below) = (
  omega arith,
  high,
  free,
  λ other from to. taken_from used port other taken from (λ above. below other above to),
)
IsSmallestFree-extend port end used exhausted taken all =
    λ other from to. taken_from used port other taken from (λ above. all other above to)
IsSmallestFree-extend port end used out_of_fuel taken h = h

module _ (end : ℕ) (used : List ℕ) (fits : end < 2 ^ 31) where
  biased-eq : (port : ℕ) → port ≤ end → biased port ≡ port + 2 ^ 31
  biased-eq port h = omega arith

  lt_int32-eq : (port : ℕ) → port ≤ end → lt_int32 port end ≡ ltb port end
  lt_int32-eq port h = rw (biased-eq port h, biased-eq end (omega arith)) (ground arith)

  add_int32-eq : (port : ℕ) → port < end → add_int32 port 1 ≡ port + 1
  add_int32-eq port h = omega arith

  search_port-IsSmallestFree :
      (fuel port : ℕ)
      → port ≤ end
      → end < port + fuel
      → IsSmallestFree port end used (search_port fuel port end used)
  unfolding search_port
  search_port-IsSmallestFree zero port h enough = absurd (omega arith)
  search_port-IsSmallestFree (suc fuel) port h enough = elim (Bool-cases (ltb port end)) [
    | inl more ↦
        let below = ltb→lt port end more in
        elim (Bool-cases (contains used port)) [
          | inl taken ↦
              rw (lt_int32-eq port h, more, taken, add_int32-eq port below)
                (IsSmallestFree-extend port end used _ taken
                  (search_port-IsSmallestFree fuel (port + 1) (omega arith) (omega arith)))
          | inr free ↦
              rw (lt_int32-eq port h, more, free)
                (omega arith, below, free, λ other from to. absurd (omega arith))
        ]
    | inr stop ↦ rw (lt_int32-eq port h, stop) (λ other from to. absurd (ground arith))
  ]

sum_eq : (start size : ℕ) → start + size < 2 ^ 31 → add_int32 start size ≡ start + size
sum_eq start size fits = omega arith

distance_eq : (start size : ℕ) → start + size < 2 ^ 31 → biased (start + size) - biased start ≡ size
distance_eq start size fits = omega arith

-- For a range of non-negative ports that does not wrap, the search finds the smallest port of the
-- range that is not in use, or reports that every one is.
pub free_port-IsSmallestFree :
    (start size : ℕ) (used : List ℕ)
    → start + size < 2 ^ 31
    → IsSmallestFree start (start + size) used (free_port start size used)
unfolding free_port
free_port-IsSmallestFree start size used fits =
    rw (sum_eq start size fits, distance_eq start size fits)
      (search_port-IsSmallestFree (start + size) used fits (suc size) start (omega arith)
        (omega arith))
