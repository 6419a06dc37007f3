-- ===== src/Usb/HandsBack.antt =====
-- crates/reink-usb/src/adapter.rs: the kernel's driver is given back.
use reink_rust.Base.{
  Bool-cases, inl, inr, Bool, Option, Result, false, if◌then◌else◌, none, some, true, ◌∙◌, ◌≡◌, ℕ,
  refl, sym,
}
use reink_rust.Usb.Handoff.{
  RusbError, UsbDriverHandoff, refuse, temporarily_detach, UsbOpenError, claim_and_reattach,
  release, DeviceHandle, ReadOnlyUsbTransport, after_reattach, after_claim, after_detach,
  after_query, claim_interface_with_policy, opened, released, release_claimed, reattached,
  reattach_detached, closed, close, is_not_supported,
}

-- What rusb documents of the kernel's driver of an interface: detaching and attaching do so if they
-- succeed and nothing if they fail, the query tells the state, and no other call changes it.
pub record KernelDriver (D : DeviceHandle) (interface : ℕ) : Type 0 where
  pub attached : D.Handle → Bool
  pub query_keeps : (h : D.Handle) → attached (D.kernel_driver_active h interface).1 ≡ attached h
  pub query_tells :
      (h : D.Handle) (active : Bool)
      → (D.kernel_driver_active h interface).0 ≡ Result.ok active
      → attached h ≡ active
  pub claim_keeps : (h : D.Handle) → attached (D.claim_interface h interface).1 ≡ attached h
  pub release_keeps : (h : D.Handle) → attached (D.release_interface h interface).1 ≡ attached h
  pub detaches :
      (h : D.Handle)
      → (D.detach_kernel_driver h interface).0 ≡ Result.ok tt
      → attached (D.detach_kernel_driver h interface).1 ≡ false
  pub detach_fails :
      (h : D.Handle) (e : RusbError)
      → (D.detach_kernel_driver h interface).0 ≡ Result.err e
      → attached (D.detach_kernel_driver h interface).1 ≡ attached h
  pub attaches :
      (h : D.Handle)
      → (D.attach_kernel_driver h interface).0 ≡ Result.ok tt
      → attached (D.attach_kernel_driver h interface).1 ≡ true
  pub attach_fails :
      (h : D.Handle) (e : RusbError)
      → (D.attach_kernel_driver h interface).0 ≡ Result.err e
      → attached (D.attach_kernel_driver h interface).1 ≡ attached h

abbrev release_error : Option RusbError → Option UsbOpenError
release_error none = none
release_error (some e) = some (release e)

module _ (D : DeviceHandle) (interface : ℕ) (K : KernelDriver D interface)
    (handoff : UsbDriverHandoff) where
  open K use {attached}

  -- After a close: the driver is as it was before, unless the error tells that attaching it failed.
  abbrev pub Closed : Bool → Result UsbOpenError (Unit {0}) × ReadOnlyUsbTransport D → Type 0
  Closed before (Result.ok u, t) = attached t.handle ≡ before
  Closed before (Result.err (release e), t) = attached t.handle ≡ before
  Closed before (Result.err e, t) = Unit {0}

  -- After a claim: if it failed, the driver is as it was before, or the error tells that attaching it
  -- failed; if it succeeded, so it is after the close of the transport that is opened.
  abbrev pub HandsBack : Bool → Result UsbOpenError Bool × D.Handle → Type 0
  HandsBack before (Result.ok detached, h) =
      Closed before (close D (opened D interface handoff detached h))
  HandsBack before (Result.err (claim_and_reattach c r), h) = attached h ≡ false
  HandsBack before (Result.err e, h) = attached h ≡ before

  reattached-Closed :
      (before : Bool) (e : Option RusbError) (t : ReadOnlyUsbTransport D)
      (r : Result RusbError (Unit {0}) × D.Handle)
      → (r.0 ≡ Result.ok tt → attached r.1 ≡ true)
      → before ≡ true
      → Closed before (closed D (release_error e) (reattached D r t).0, (reattached D r t).1)
  reattached-Closed before none t (Result.ok u, h) a b = a refl ∙ sym b
  reattached-Closed before (some e) t (Result.ok u, h) a b = a refl ∙ sym b
  reattached-Closed before none t (Result.err e', h) a b = tt
  reattached-Closed before (some e) t (Result.err e', h) a b = tt

  released-Closed :
      (before detached : Bool) (h : D.Handle) (r : Result RusbError (Unit {0}) × D.Handle)
      → attached r.1 ≡ attached h
      → attached h ≡ (if detached then false else before)
      → (detached ≡ true → before ≡ true)
      → (let t : ReadOnlyUsbTransport D =
            (released D r (opened D interface handoff detached h)).1 in
          Closed before (
            closed D
                (released D r (opened D interface handoff detached h)).0
                (reattach_detached D t).0,
            (reattach_detached D t).1,
          ))
  unfolding reattach_detached
  released-Closed before true h (Result.ok u, h') k a b =
      reattached-Closed before none _ (D.attach_kernel_driver h' interface) (K.attaches h') (b refl)
  released-Closed before true h (Result.err e, h') k a b =
      reattached-Closed before (some e) _ (D.attach_kernel_driver h' interface) (K.attaches h')
        (b refl)
  released-Closed before false h (Result.ok u, h') k a b = k ∙ a
  released-Closed before false h (Result.err e, h') k a b = k ∙ a

  close-Closed :
      (before detached : Bool) (h : D.Handle)
      → attached h ≡ (if detached then false else before)
      → (detached ≡ true → before ≡ true)
      → Closed before (close D (opened D interface handoff detached h))
  unfolding close release_claimed
  close-Closed before detached h a b =
      released-Closed before detached h (D.release_interface h interface) (K.release_keeps h) a b

  after_reattach-HandsBack :
      (before : Bool) (c : RusbError) (h : D.Handle) (r : Result RusbError (Unit {0}) × D.Handle)
      → (r.0 ≡ Result.ok tt → attached r.1 ≡ true)
      → ((e : RusbError) → r.0 ≡ Result.err e → attached r.1 ≡ attached h)
      → before ≡ true
      → attached h ≡ false
      → HandsBack before (after_reattach D interface c r)
  after_reattach-HandsBack before c h (Result.ok u, h') ok' err' b a = ok' refl ∙ sym b
  after_reattach-HandsBack before c h (Result.err e, h') ok' err' b a = err' e refl ∙ a

  after_claim-HandsBack :
      (before detached : Bool) (h : D.Handle) (r : Result RusbError (Unit {0}) × D.Handle)
      → attached r.1 ≡ attached h
      → attached h ≡ (if detached then false else before)
      → (detached ≡ true → before ≡ true)
      → HandsBack before (after_claim D interface detached r)
  unfolding after_claim
  after_claim-HandsBack before detached h (Result.ok u, h') k a b =
      close-Closed before detached h' (k ∙ a) b
  after_claim-HandsBack before true h (Result.err e, h') k a b =
      after_reattach-HandsBack before e h' (D.attach_kernel_driver h' interface) (K.attaches h')
        (K.attach_fails h') (b refl) (k ∙ a)
  after_claim-HandsBack before false h (Result.err e, h') k a b = k ∙ a

  after_detach-HandsBack :
      (before : Bool) (h : D.Handle) (r : Result RusbError (Unit {0}) × D.Handle)
      → (r.0 ≡ Result.ok tt → attached r.1 ≡ false)
      → ((e : RusbError) → r.0 ≡ Result.err e → attached r.1 ≡ attached h)
      → before ≡ true
      → attached h ≡ before
      → HandsBack before (after_detach D interface r)
  unfolding after_detach
  after_detach-HandsBack before h (Result.ok u, h') ok' err' b a =
      after_claim-HandsBack before true h' (D.claim_interface h' interface) (K.claim_keeps h')
        (ok' refl) (λ _. b)
  after_detach-HandsBack before h (Result.err e, h') ok' err' b a = err' e refl ∙ a

  not_detached :
      (before : Bool) (h : D.Handle)
      → attached h ≡ before
      → HandsBack before (after_claim D interface false (D.claim_interface h interface))
  not_detached before h a =
      after_claim-HandsBack before false h (D.claim_interface h interface) (K.claim_keeps h) a
        (λ eq. absurd (cc eq))

  after_query-HandsBack :
      (before : Bool) (policy : UsbDriverHandoff) (r : Result RusbError Bool × D.Handle)
      → attached r.1 ≡ before
      → ((active : Bool) → r.0 ≡ Result.ok active → before ≡ active)
      → HandsBack before (after_query D interface policy r)
  unfolding after_query
  after_query-HandsBack before refuse (Result.ok true, h) a tells = a
  after_query-HandsBack before temporarily_detach (Result.ok true, h) a tells =
      after_detach-HandsBack before h (D.detach_kernel_driver h interface) (K.detaches h)
        (K.detach_fails h) (tells true refl) a
  after_query-HandsBack before refuse (Result.ok false, h) a tells = not_detached before h a
  after_query-HandsBack before temporarily_detach (Result.ok false, h) a tells =
      not_detached before h a
  after_query-HandsBack before policy (Result.err e, h) a tells =
      elim (Bool-cases (is_not_supported e)) [
        | inl eq ↦ rw eq (not_detached before h a)
        | inr eq ↦ rw eq a
      ]

  -- However rusb answers: if a claim fails, the kernel's driver is as it was before, or the error tells
  -- that attaching it again failed; if it succeeds, then after the close of the transport the driver
  -- is as before the claim, unless the close fails with an error that tells that attaching failed.
  pub claim_interface_with_policy-HandsBack :
      (h : D.Handle) → HandsBack (attached h) (claim_interface_with_policy D interface handoff h)
  unfolding claim_interface_with_policy
  claim_interface_with_policy-HandsBack h =
      after_query-HandsBack (attached h) handoff (D.kernel_driver_active h interface)
        (K.query_keeps h) (K.query_tells h)
