-- ===== src/ComponentThread/Turns.antt =====
-- Single turns of a puppet thread.
use libspinscale.Base.{ℕ, ◌≡◌, inl, inr, false, none, some, List, [], ◌∷◌, ◌++◌, Option-cases}
use mathlib.Core.List.{append-nil}
use libspinscale.IoService.{IoService, IsLawful}
use libspinscale.ComponentThread.{
  ThreadLifetimeMgmtOp, Handler, running, paused, PuppetThread, handle, turn_in, call_original_cb,
}

-- The callback that an operation posts, if it has one.
abbrev pub answer : ThreadLifetimeMgmtOp → List (ℕ × ℕ)
answer op = elim op.callback [ none ↦ [] | some f ↦ (op.caller, f) ∷ [] ]

module _ {I : IoService Handler} (law : IsLawful I) where
  pub call_original_cb-answer :
      (op : ThreadLifetimeMgmtOp) (t : PuppetThread I)
      → call_original_cb op t ≡ record t { callbacks = t.callbacks ++ answer op }
  unfolding call_original_cb
  call_original_cb-answer op t = elim (Option-cases op.callback) [
    | inl empty ↦ rw (empty, append-nil t.callbacks)
    | inr (f, full) ↦ rw full
  ]

  pub turn-running :
      (t : PuppetThread I) (h : Handler) (hs : List Handler)
      → I.stopped t.io_service ≡ false
      → I.pending t.io_service ≡ h ∷ hs
      → (s : I.State) × (turn_in running t ≡ some (handle h (record t { io_service = s })))
        × (I.pending s ≡ hs)
        × (I.stopped s ≡ false)
  unfolding turn_in
  turn-running t h hs e q =
      let (s, ran, rest, open_) = law.run_one-pending t.io_service h hs e q in
      (s, rw (ran, turn_in), rest, open_)

  pub turn-paused :
      (t : PuppetThread I) (h : Handler) (hs : List Handler)
      → I.stopped t.pause_io_service ≡ false
      → I.pending t.pause_io_service ≡ h ∷ hs
      → (s : I.State) × (turn_in paused t ≡ some (handle h (record t { pause_io_service = s })))
        × (I.pending s ≡ hs)
        × (I.stopped s ≡ false)
  unfolding turn_in
  turn-paused t h hs e q =
      let (s, ran, rest, open_) = law.run_one-pending t.pause_io_service h hs e q in
      (s, rw (ran, turn_in), rest, open_)
