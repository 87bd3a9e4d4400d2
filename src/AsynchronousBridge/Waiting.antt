-- ===== src/AsynchronousBridge/Waiting.antt =====
-- The wait and other threads: it is never asleep once the operation is complete, and it does not
-- return before.
use libspinscale.Base.{
  ℕ, ◌<◌, ◌≡◌, ◌≢◌, refl, sym, ◌∙◌, subst, ◌⊎◌, inl, inr, true, false, some, List, [], ◌∷◌, ◌++◌,
  arith, Bool-cases, List-cases,
}
use libspinscale.IoService.{IoService, IsLawful, RunOne-cases}
use libspinscale.AsynchronousBridge.{
  Handler, empty_handler, application, AsynchronousBridge, new_bridge, store_complete, post_empty,
  check, run_handler, wait_round,
}

module _ {I : IoService Handler}
    (run_application : ℕ → AsynchronousBridge I → AsynchronousBridge I) where
  -- What can happen: a round of the wait, or another thread sets the operation complete in two
  -- steps, posts a handler, or stops the service.
  pub data Step : AsynchronousBridge I → AsynchronousBridge I → Type 0 where
    rounded :
        {b b' : AsynchronousBridge I}
        → b.waiting ≡ true
        → wait_round run_application b ≡ some b'
        → Step b b'
    stored : {b : AsynchronousBridge I} → Step b (store_complete b)
    emptied : {b : AsynchronousBridge I} → 0 < b.owed → Step b (post_empty b)
    posted :
        {b : AsynchronousBridge I} (h : Handler)
        → Step b (record b { io_service = I.post h b.io_service })
    stopped : {b : AsynchronousBridge I} → Step b (record b { io_service = I.stop b.io_service })

  pub data Steps (b : AsynchronousBridge I) : AsynchronousBridge I → Type 0 where
    here : Steps b b
    after : {b' b'' : AsynchronousBridge I} → Steps b b' → Step b' b'' → Steps b b''

append_one-nonempty : (l : List Handler) (h : Handler) → l ++ h ∷ [] ≢ []
append_one-nonempty [] h e = cc
append_one-nonempty (x ∷ l) h e = cc

module _ {I : IoService Handler} where
  -- Something keeps `run_one` from waiting, or a setter is about to post.
  abbrev pub CanWake : AsynchronousBridge I → Type 0
  CanWake b = (I.pending b.io_service ≢ []) ⊎ (I.stopped b.io_service ≡ true) ⊎ (0 < b.owed)

  abbrev pub IsOver : AsynchronousBridge I → Type 0
  IsOver b = (b.is_async_operation_complete ≡ true) ⊎ (I.stopped b.io_service ≡ true)

  -- A wait that is on will wake for a complete operation, and one that is over had a reason.
  pub data Sound (b : AsynchronousBridge I) : Type 0 where
    on : b.waiting ≡ true → (b.is_async_operation_complete ≡ false) ⊎ CanWake b → Sound b
    over : b.waiting ≡ false → IsOver b → Sound b

  check-Sound : (b : AsynchronousBridge I) → Sound (check b)
  unfolding check
  check-Sound b = elim (Bool-cases b.is_async_operation_complete) [
    | inl e ↦ over (rw e refl) (inl e)
    | inr e ↦ elim (Bool-cases (I.stopped b.io_service)) [
      | inl k ↦ over (rw (e, k) refl) (inr k)
      | inr k ↦ on (rw (e, k) refl) (inl e)
    ]
  ]

module _ {I : IoService Handler} (law : IsLawful I)
    (run_application : ℕ → AsynchronousBridge I → AsynchronousBridge I) where
  -- Every round ends with the test.
  wait_round-check :
      (b b' : AsynchronousBridge I)
      → wait_round run_application b ≡ some b'
      → (c : AsynchronousBridge I) × (check c ≡ b')
  unfolding wait_round
  wait_round-check b b' e = elim (RunOne-cases (I.run_one b.io_service)) [
    | inl (h, s, q) ↦
        (run_handler run_application h (record b { io_service = s }), ground (arith, q, e))
    | inr (inl q) ↦ (b, ground (arith, q, e))
    | inr (inr q) ↦ absurd (ground (arith, q, e))
  ]

  pending_post-nonempty : (h : Handler) (s : I.State) → I.pending (I.post h s) ≢ []
  pending_post-nonempty h s e = append_one-nonempty (I.pending s) h (sym (law.pending-post h s) ∙ e)

  wait_round-Sound :
      (b b' : AsynchronousBridge I) → wait_round run_application b ≡ some b' → Sound b'
  unfolding wait_round
  wait_round-Sound b b' e =
      let (c, is_check) = wait_round-check b b' e in subst (Sound {I = I}) is_check (check-Sound c)

  step-Sound : {b b' : AsynchronousBridge I} → Step run_application b b' → Sound b → Sound b'
  unfolding store_complete post_empty
  step-Sound (rounded {b} {b'} w e) h = wait_round-Sound b b' e
  step-Sound (stored {b}) (on w h) = on w (inr (inr (inr (omega arith))))
  step-Sound (stored {b}) (over w h) = over w (inl refl)
  step-Sound (emptied {b} k) (on w h) =
      on w (inr (inl (pending_post-nonempty empty_handler b.io_service)))
  step-Sound (emptied {b} k) (over w (inl e)) = over w (inl e)
  step-Sound (emptied {b} k) (over w (inr e)) =
      over w (inr (law.stopped-post empty_handler b.io_service ∙ e))
  step-Sound (posted {b} k) (on w h) = on w (inr (inl (pending_post-nonempty k b.io_service)))
  step-Sound (posted {b} k) (over w (inl e)) = over w (inl e)
  step-Sound (posted {b} k) (over w (inr e)) = over w (inr (law.stopped-post k b.io_service ∙ e))
  step-Sound (stopped {b}) (on w h) = on w (inr (inr (inl (law.stopped-stop b.io_service))))
  step-Sound (stopped {b}) (over w h) = over w (inr (law.stopped-stop b.io_service))

  -- Let a bridge be sound: a wait that is on has an incomplete operation, or a pending handler, a
  -- stopped service or a setter that is about to post; a wait that is over has a complete
  -- operation or a stopped service. Then it is sound after any sequence of rounds of the wait and
  -- of steps of other threads, which set the operation complete in two steps, post handlers and
  -- stop the service.
  pub Steps-Sound : {b b' : AsynchronousBridge I} → Steps run_application b b' → Sound b → Sound b'
  Steps-Sound here h = h
  Steps-Sound (after steps step) h = step-Sound step (Steps-Sound steps h)

  Sound-CanWake :
      (b : AsynchronousBridge I)
      → Sound b
      → b.waiting ≡ true
      → b.is_async_operation_complete ≡ true
      → CanWake b
  Sound-CanWake b (on w (inl e)) _ c = absurd (cc)
  Sound-CanWake b (on w (inr h)) _ c = h
  Sound-CanWake b (over w h) e c = absurd (cc)

  run_handler_complete :
      ((n : ℕ) (c : AsynchronousBridge I)
        → c.is_async_operation_complete ≡ true
        → (run_application n c).is_async_operation_complete ≡ true)
      → (h : Handler) (b : AsynchronousBridge I) → b.is_async_operation_complete ≡ true
      → (run_handler run_application h b).is_async_operation_complete ≡ true
  run_handler_complete keeps empty_handler b c = c
  run_handler_complete keeps (application n) b c = keeps n b c

  -- A round that returns with the operation complete.
  abbrev pub ReturnsComplete : AsynchronousBridge I → Type 0
  ReturnsComplete b =
      (b' : AsynchronousBridge I) × (wait_round run_application b ≡ some b')
      × (b'.waiting ≡ false)
      × (b'.is_async_operation_complete ≡ true)

  check_complete :
      (b : AsynchronousBridge I)
      → b.is_async_operation_complete ≡ true
      → ((check b).waiting ≡ false) × ((check b).is_async_operation_complete ≡ true)
  unfolding check
  check_complete b c = (rw c refl, c)

  wait_round-stopped :
      (b : AsynchronousBridge I)
      → I.stopped b.io_service ≡ true
      → b.is_async_operation_complete ≡ true
      → ReturnsComplete b
  unfolding wait_round
  wait_round-stopped b e c =
      let (over_, complete) = check_complete b c in
      (check b, rw (law.run_one-stopped b.io_service e, wait_round), over_, complete)

  wait_round-runs :
      ((n : ℕ) (c : AsynchronousBridge I)
        → c.is_async_operation_complete ≡ true
        → (run_application n c).is_async_operation_complete ≡ true)
      → (b : AsynchronousBridge I) (h : Handler) (hs : List Handler)
      → I.stopped b.io_service ≡ false
      → I.pending b.io_service ≡ h ∷ hs
      → b.is_async_operation_complete ≡ true
      → ReturnsComplete b
  unfolding wait_round
  wait_round-runs keeps b h hs e q c =
      let (s, ran, rest, open_) = law.run_one-pending b.io_service h hs e q in
      let b1 : AsynchronousBridge I = record b { io_service = s } in
      let (over_, complete) =
        check_complete (run_handler run_application h b1) (run_handler_complete keeps h b1 c) in
      (check (run_handler run_application h b1), rw (ran, wait_round), over_, complete)

  -- Let no application handler make a complete operation incomplete, and let the operation be
  -- complete after any sequence of steps from a new bridge whose wait is still on, with every
  -- setter having posted. Then the next round of the wait does not block: the wait returns, with
  -- the operation complete.
  pub wait_round-returns :
      (b : AsynchronousBridge I)
      → ((n : ℕ) (c : AsynchronousBridge I)
          → c.is_async_operation_complete ≡ true
          → (run_application n c).is_async_operation_complete ≡ true)
      → (s : I.State) → Steps run_application (new_bridge s) b
      → b.waiting ≡ true
      → b.is_async_operation_complete ≡ true
      → b.owed ≡ 0
      → (b' : AsynchronousBridge I) × (wait_round run_application b ≡ some b')
        × (b'.waiting ≡ false)
        × (b'.is_async_operation_complete ≡ true)
  wait_round-returns b keeps s steps w c o =
      let awake = Sound-CanWake b (Steps-Sound steps (on refl (inl refl))) w c in
      elim awake [
        | inl h ↦ elim (Bool-cases (I.stopped b.io_service)) [
          | inl e ↦ wait_round-stopped b e c
          | inr e ↦ elim (List-cases (I.pending b.io_service)) [
            | inl q ↦ absurd (h q)
            | inr (k, ks, q) ↦ wait_round-runs keeps b k ks e q c
          ]
        ]
        | inr (inl e) ↦ wait_round-stopped b e c
        | inr (inr h) ↦ absurd (omega arith)
      ]
