-- ===== src/Relayer/Loader.antt =====
-- `loadRelayerSDK` and `waitForRelayerSDK` of sdk.ts: three promises that the module keeps, and the
-- poll for the global that the script defines. A call is taken to run until its promises settle.
use lucky_scratch.Prelude.{
  ℕ, zero, suc, ◌+◌, ◌-◌, ◌*◌, ◌≤◌, ◌≡◌, ◌⊎◌, inl, inr, refl, Bool, true, false, Option, none, some,
  arith, leb, Bool-cases, List, [], ◌∷◌,
}

-- A promise that has settled.
pub data Settled : Type 0 where
  resolved rejected : Settled

-- `relayerSDKScriptPromise`, `relayerSDKPromise`, `relayerSDKInitPromise`
pub record LoaderState : Type 0 where
  pub script : Option Settled
  pub sdk : Option Settled
  pub init : Option Settled

abbrev pub start : LoaderState
start = record { script = none; sdk = none; init = none }

-- What the browser answers during one call: the script's load, the poll and `initSDK`.
pub record Attempt : Type 0 where
  pub script_loads : Settled
  pub global_appears : Settled
  pub init_answers : Settled

abbrev or_new : Option Settled → Settled → Settled
or_new none now = now
or_new (some kept) now = kept

abbrev then_settled : Settled → Settled → Settled
then_settled rejected next = rejected
then_settled resolved next = next

-- The first `if`: the promise of the SDK, made once.
ensure_sdk : Attempt → LoaderState → LoaderState
ensure_sdk a s = elim s.sdk [
  | some kept ↦ s
  | none ↦
      let script = or_new s.script a.script_loads in
      record s { script = some script; sdk = some (then_settled script a.global_appears) }
]

-- The rest: a rejected promise is thrown again, and `initSDK` is called once.
init_sdk : Attempt → LoaderState → LoaderState × Settled
init_sdk a s = elim s.sdk [
  | none ↦ (s, rejected)
  | some rejected ↦ (s, rejected)
  | some resolved ↦ let init = or_new s.init a.init_answers in (record s { init = some init }, init)
]

unfoldable pub load_relayer_sdk : Attempt → LoaderState → LoaderState × Settled
unfolding ensure_sdk init_sdk
load_relayer_sdk a s = init_sdk a (ensure_sdk a s)

-- The calls of a session, in their order.
unfoldable pub run_loads : List Attempt → LoaderState → LoaderState
run_loads [] s = s
run_loads (a ∷ as') s = run_loads as' (load_relayer_sdk a s).0

-- A state in which no call can succeed.
abbrev pub IsStuck : LoaderState → Type 0
IsStuck s = (s.sdk ≡ some rejected) ⊎ (s.sdk ≡ some resolved) × (s.init ≡ some rejected)

abbrev pub IsLoaded : LoaderState → Type 0
IsLoaded s = (s.sdk ≡ some resolved) × (s.init ≡ some resolved)

load_relayer_sdk-IsStuck :
    (a : Attempt) (s : LoaderState)
    → IsStuck s
    → ((load_relayer_sdk a s).1 ≡ rejected) × ((load_relayer_sdk a s).0 ≡ s)
unfolding load_relayer_sdk
load_relayer_sdk-IsStuck a s (inl h) = (ground arith, ground arith)
load_relayer_sdk-IsStuck a s (inr h) = (ground arith, ground arith)

load_relayer_sdk-outcome :
    (a : Attempt) (s : LoaderState)
    → ((load_relayer_sdk a s).1 ≡ resolved) × IsLoaded (load_relayer_sdk a s).0
      ⊎ ((load_relayer_sdk a s).1 ≡ rejected) × IsStuck (load_relayer_sdk a s).0
unfolding load_relayer_sdk
load_relayer_sdk-outcome a s = ground arith

run_loads-IsStuck : (calls : List Attempt) (s : LoaderState) → IsStuck s → run_loads calls s ≡ s
unfolding run_loads
run_loads-IsStuck [] s h = refl
run_loads-IsStuck (a ∷ calls) s h =
    rw (load_relayer_sdk-IsStuck a s h).1 (run_loads-IsStuck calls s h)

-- After one failed call of loadRelayerSDK every later call fails, whatever the calls between
-- answer and whatever the browser would answer then.
pub load_relayer_sdk_permanent :
    (a b : Attempt) (calls : List Attempt) (s : LoaderState)
    → (load_relayer_sdk a s).1 ≡ rejected
    → (load_relayer_sdk b (run_loads calls (load_relayer_sdk a s).0)).1 ≡ rejected
load_relayer_sdk_permanent a b calls s h = elim (load_relayer_sdk-outcome a s) [
  | inl (fine, _) ↦ absurd (cc)
  | inr (_, stuck) ↦
      rw (run_loads-IsStuck calls (load_relayer_sdk a s).0 stuck)
        (load_relayer_sdk-IsStuck b (load_relayer_sdk a s).0 stuck).0
]

load_relayer_sdk-IsLoaded :
    (a : Attempt) (s : LoaderState)
    → IsLoaded s
    → ((load_relayer_sdk a s).1 ≡ resolved) × ((load_relayer_sdk a s).0 ≡ s)
unfolding load_relayer_sdk
load_relayer_sdk-IsLoaded a s h = (ground arith, ground arith)

run_loads-IsLoaded : (calls : List Attempt) (s : LoaderState) → IsLoaded s → run_loads calls s ≡ s
unfolding run_loads
run_loads-IsLoaded [] s h = refl
run_loads-IsLoaded (a ∷ calls) s h =
    rw (load_relayer_sdk-IsLoaded a s h).1 (run_loads-IsLoaded calls s h)

-- Once a call of loadRelayerSDK has succeeded, later calls change no promise and succeed, whatever
-- the browser would answer then.
pub load_relayer_sdk_once :
    (a b : Attempt) (calls : List Attempt) (s : LoaderState)
    → (load_relayer_sdk a s).1 ≡ resolved
    → ((load_relayer_sdk b (run_loads calls (load_relayer_sdk a s).0)).1 ≡ resolved)
      × (run_loads calls (load_relayer_sdk a s).0 ≡ (load_relayer_sdk a s).0)
load_relayer_sdk_once a b calls s h = elim (load_relayer_sdk-outcome a s) [
  | inr (failed, _) ↦ absurd (cc)
  | inl (_, loaded) ↦ (
    rw (run_loads-IsLoaded calls (load_relayer_sdk a s).0 loaded)
        (load_relayer_sdk-IsLoaded b (load_relayer_sdk a s).0 loaded).0,
    run_loads-IsLoaded calls (load_relayer_sdk a s).0 loaded,
  )
]

abbrev pub relayer_sdk_load_timeout_ms : ℕ
relayer_sdk_load_timeout_ms = 15000

-- How the poll ends, and at which poll; the model may also run out of fuel.
pub data Poll : Type 0 where
  found timed_out : ℕ → Poll
  out_of_fuel : Poll

-- The times of the polls and whether the global is there at each are the environment's.
module _ (clock : ℕ → ℕ) (present : ℕ → Bool) where
  unfoldable pub poll_from : ℕ → ℕ → Poll
  poll_from zero k = out_of_fuel
  poll_from (suc fuel) k = elim (present k) [
    | true ↦ found k
    | false ↦ elim (leb relayer_sdk_load_timeout_ms (clock k - clock 0)) [
      | true ↦ timed_out k
      | false ↦ poll_from fuel (k + 1)
    ]
  ]

  unfoldable pub wait_for_relayer_sdk : Poll
  unfolding poll_from
  wait_for_relayer_sdk = poll_from 151 0

  abbrev pub IsAnswered : Poll → Type 0
  IsAnswered (found k) = (present k ≡ true) × (k ≤ 150)
  IsAnswered (timed_out k) =
      (present k ≡ false) × (relayer_sdk_load_timeout_ms ≤ clock k - clock 0) × (k ≤ 150)
  IsAnswered out_of_fuel = ⊥

  clock_grows : ((k : ℕ) → clock k + 100 ≤ clock (suc k)) → (k : ℕ) → clock 0 + 100 * k ≤ clock k
  clock_grows h zero = omega arith
  clock_grows h (suc k) = omega (arith, h k, clock_grows h k)

  poll_from_found : (fuel k : ℕ) → present k ≡ true → poll_from (suc fuel) k ≡ found k
  unfolding poll_from
  poll_from_found fuel k h = ground arith

  poll_from_late :
      (fuel k : ℕ)
      → present k ≡ false
      → leb relayer_sdk_load_timeout_ms (clock k - clock 0) ≡ true
      → poll_from (suc fuel) k ≡ timed_out k
  unfolding poll_from
  poll_from_late fuel k h l = ground arith

  poll_from_again :
      (fuel k : ℕ)
      → present k ≡ false
      → leb relayer_sdk_load_timeout_ms (clock k - clock 0) ≡ false
      → poll_from (suc fuel) k ≡ poll_from fuel (k + 1)
  unfolding poll_from
  poll_from_again fuel k h l = ground arith

  poll_from-IsAnswered :
      (fuel k : ℕ)
      → k + fuel ≡ 151
      → ((n : ℕ) → clock n + 100 ≤ clock (suc n))
      → (k ≤ 150)
      → IsAnswered (poll_from fuel k)
  poll_from-IsAnswered zero k e h le = absurd (omega arith)
  poll_from-IsAnswered (suc fuel) k e h le = elim (Bool-cases (present k)) [
    | inl here ↦ rw (poll_from_found fuel k here) (here, le)
    | inr missing ↦ elim (Bool-cases (leb relayer_sdk_load_timeout_ms (clock k - clock 0))) [
      | inl late ↦ rw (poll_from_late fuel k missing late) (missing, ground arith, le)
      | inr early ↦
          rw (poll_from_again fuel k missing early)
            (poll_from-IsAnswered fuel (k + 1) (omega arith) h (ground (arith, clock_grows h k)))
    ]
  ]

  -- With 100 ms or more between polls, the poll for the SDK ends by the 151st poll: it has found
  -- the global there, or has found it missing with 15 seconds gone.
  pub wait_for_relayer_sdk-IsAnswered :
      ((k : ℕ) → clock k + 100 ≤ clock (suc k)) → IsAnswered wait_for_relayer_sdk
  unfolding wait_for_relayer_sdk
  wait_for_relayer_sdk-IsAnswered h = poll_from-IsAnswered 151 0 refl h (omega arith)
