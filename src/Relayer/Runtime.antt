-- ===== src/Relayer/Runtime.antt =====
-- The runtime that the pages share: packages/nextjs/services/fhevm/FhevmRuntimeProvider.tsx. A call
-- is taken to run until its promises settle; what the loader throws is an Error of a message, or
-- none. The generator of key pairs is a parameter, `none` where it throws.
use lucky_scratch.Prelude.{
  ℕ, ◌≡◌, refl, sym, ◌∙◌, Option, none, some, List, [], ◌∷◌, if◌then◌else◌, Bool-cases, inl, inr,
}
use lucky_scratch.Prelude.Texts.{Text, codes, trim, is_empty, text_eq, text_eq_refl}
use lucky_scratch.Relayer.Loader.{
  Settled, resolved, rejected, LoaderState, Attempt, load_relayer_sdk, run_loads,
  load_relayer_sdk_permanent,
}

pub data FhevmRuntimeStatus : Type 0 where
  idle loading ready error : FhevmRuntimeStatus

unfoldable pub to_error_message : Option Text → Text
to_error_message none = codes "unknown FHE runtime error"
to_error_message (some message) =
    if is_empty (trim message) then codes "unknown FHE runtime error" else message

-- `current === "ready" ? current : "loading"`
abbrev pub entered : FhevmRuntimeStatus → FhevmRuntimeStatus
entered ready = ready
entered _ = loading

module _ (Keypair : Type 0) where
  pub record TicketSession : Type 0 where
    pub keypair : Keypair
    pub created_at : ℕ

  pub record Runtime : Type 0 where
    pub loader : LoaderState
    pub status : FhevmRuntimeStatus
    pub message : Option Text
    pub sessions : List (Text × TicketSession)

module _ {Keypair : Type 0} where
  abbrev pub session_of :
      Text → List (Text × TicketSession Keypair) → Option (TicketSession Keypair)
  session_of id [] = none
  session_of id ((key, session) ∷ sessions) =
      if text_eq key id then some session else session_of id sessions

  -- `delete sessions[id]`
  abbrev pub deleted :
      Text → List (Text × TicketSession Keypair) → List (Text × TicketSession Keypair)
  deleted id [] = []
  deleted id ((key, session) ∷ sessions) =
      let rest = deleted id sessions in if text_eq key id then rest else (key, session) ∷ rest

  abbrev pub after_load :
      Option Text → Runtime Keypair → LoaderState × Settled → Runtime Keypair × Settled
  after_load thrown r (loader, resolved) =
      (record r { loader = loader; status = ready; message = none }, resolved)
  after_load thrown r (loader, rejected) = (
    record r { loader = loader; status = error; message = some (to_error_message thrown) },
    rejected,
  )

  unfoldable pub ensure_ready : Attempt → Option Text → Runtime Keypair → Runtime Keypair × Settled
  ensure_ready a thrown r =
      after_load thrown (record r { status = entered r.status; message = none })
        (load_relayer_sdk a r.loader)

  -- What follows `await ensureReady()`.
  abbrev pub created :
      Option Keypair → ℕ → Text → Runtime Keypair × Settled → Runtime Keypair × Option Keypair
  created generated now id (r, rejected) = (r, none)
  created none now id (r, resolved) = (r, none)
  created (some k) now id (r, resolved) = (
    record r { sessions = (id, record { keypair = k; created_at = now }) ∷ deleted id r.sessions },
    some k,
  )

  -- The kept session, or a new one.
  abbrev pub found_or_created :
      Option (TicketSession Keypair)
      → Attempt
      → Option Text
      → Option Keypair
      → ℕ
      → Text
      → Runtime Keypair
      → Runtime Keypair × Option Keypair
  found_or_created (some session) a thrown generated now id r = (r, some session.keypair)
  found_or_created none a thrown generated now id r =
      created generated now id (ensure_ready a thrown r)

  unfoldable pub get_or_create_ticket_keypair :
      Attempt
      → Option Text
      → Option Keypair
      → ℕ
      → Text
      → Runtime Keypair
      → Runtime Keypair × Option Keypair
  get_or_create_ticket_keypair a thrown generated now id r =
      found_or_created (session_of id r.sessions) a thrown generated now id r

  unfoldable pub clear_ticket_session : Text → Runtime Keypair → Runtime Keypair
  clear_ticket_session id r = record r { sessions = deleted id r.sessions }

  session_of-deleted :
      (id : Text) (ss : List (Text × TicketSession Keypair)) → session_of id (deleted id ss) ≡ none
  session_of-deleted id [] = refl
  session_of-deleted id ((key, session) ∷ ss) = elim (Bool-cases (text_eq key id)) [
    | inl same ↦ rw same (session_of-deleted id ss)
    | inr other ↦ rw (other, other) (session_of-deleted id ss)
  ]

  -- A cleared ticket has no session.
  pub clear_ticket_session-forgets :
      (id : Text) (r : Runtime Keypair)
      → session_of id (Runtime.sessions (clear_ticket_session id r)) ≡ none
  unfolding clear_ticket_session
  clear_ticket_session-forgets id r = session_of-deleted id r.sessions

  after_load-rejected :
      (thrown : Option Text) (r : Runtime Keypair) (x : LoaderState × Settled)
      → x.1 ≡ rejected
      → ((after_load thrown r x).1 ≡ rejected) × (Runtime.status (after_load thrown r x).0 ≡ error)
  after_load-rejected thrown r (loader, resolved) h = cc
  after_load-rejected thrown r (loader, rejected) h = (refl, refl)

  after_load-same :
      (thrown : Option Text) (r : Runtime Keypair) (x : LoaderState × Settled)
      → ((after_load thrown r x).1 ≡ x.1) × (Runtime.loader (after_load thrown r x).0 ≡ x.0)
  after_load-same thrown r (loader, resolved) = (refl, refl)
  after_load-same thrown r (loader, rejected) = (refl, refl)

  -- After a failed `ensureReady` the next one fails too, and leaves the runtime in its error state,
  -- whatever the browser would answer then.
  pub ensure_ready-again :
      (a b : Attempt) (thrown thrown' : Option Text) (r : Runtime Keypair)
      → (ensure_ready a thrown r).1 ≡ rejected
      → let after = ensure_ready b thrown' (ensure_ready a thrown r).0 in
        (after.1 ≡ rejected) × (Runtime.status after.0 ≡ error)
  unfolding ensure_ready run_loads
  ensure_ready-again a b thrown thrown' r h =
      let begun : Runtime Keypair = record r { status = entered r.status; message = none } in
      let x : LoaderState × Settled = load_relayer_sdk a r.loader in
      let (same, kept) = after_load-same thrown begun x in
      let mid : Runtime Keypair = (after_load thrown begun x).0 in
      after_load-rejected thrown' (record mid { status = entered mid.status; message = none })
        (load_relayer_sdk b mid.loader)
        (rw kept (load_relayer_sdk_permanent a b [] r.loader (sym same ∙ h)))

  session_of-put :
      (id : Text) (session : TicketSession Keypair) (ss : List (Text × TicketSession Keypair))
      → session_of id ((id, session) ∷ ss) ≡ some session
  session_of-put id session ss = rw (text_eq_refl id) refl

  created-kept :
      (generated : Option Keypair) (now : ℕ) (id : Text) (x : Runtime Keypair × Settled)
      (k : Keypair)
      → (created generated now id x).1 ≡ some k
      → (session : TicketSession Keypair) × (session_of id
            (Runtime.sessions (created generated now id x).0)
          ≡ some session)
        × (session.keypair ≡ k)
  created-kept generated now id (r, rejected) k h = cc
  created-kept none now id (r, resolved) k h = cc
  created-kept (some q) now id (r, resolved) k h =
      (record { keypair = q; created_at = now }, session_of-put id _ _, cc)

  kept_session :
      (a : Attempt) (thrown : Option Text) (generated : Option Keypair) (now : ℕ) (id : Text)
      (r : Runtime Keypair) (k : Keypair) (o : Option (TicketSession Keypair))
      → session_of id r.sessions ≡ o
      → (found_or_created o a thrown generated now id r).1 ≡ some k
      → (session : TicketSession Keypair) × (session_of id
            (Runtime.sessions (found_or_created o a thrown generated now id r).0)
          ≡ some session)
        × (session.keypair ≡ k)
  kept_session a thrown generated now id r k (some session) e h = (session, e, cc)
  kept_session a thrown generated now id r k none e h =
      created-kept generated now id (ensure_ready a thrown r) k h

  -- A ticket that was given a key pair is given the same one by the next call, which leaves the
  -- runtime as it was, whatever the loader and the generator would answer then.
  pub get_or_create_ticket_keypair-again :
      (a b : Attempt) (thrown thrown' : Option Text) (generated generated' : Option Keypair)
      (now now' : ℕ) (id : Text) (r : Runtime Keypair) (k : Keypair)
      → (get_or_create_ticket_keypair a thrown generated now id r).1 ≡ some k
      → let after = (get_or_create_ticket_keypair a thrown generated now id r).0 in
        get_or_create_ticket_keypair b thrown' generated' now' id after ≡ (after, some k)
  unfolding get_or_create_ticket_keypair
  get_or_create_ticket_keypair-again a b thrown thrown' generated generated' now now' id r k h =
      let after : Runtime Keypair =
        (found_or_created (session_of id r.sessions) a thrown generated now id r).0 in
      let (session, found, same) =
        kept_session a thrown generated now id r k (session_of id r.sessions) refl h in
      rw (found, same) refl
