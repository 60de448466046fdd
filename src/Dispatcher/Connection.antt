-- ===== src/Dispatcher/Connection.antt =====
-- The receive loop of ipc_server.c over the dispatcher and the registry.
use embedded_device_forwarde.Prelude.{
  ℕ, zero, suc, ◌<◌, ◌≡◌, refl, ◌∙◌, ap, sym, subst, List, [], ◌∷◌, ◌++◌, none, arith, length, drop,
  length-drop,
}
use embedded_device_forwarde.Prelude.Int.{ℤ, int_eq_refl}
use embedded_device_forwarde.Json.{Cjson}
use embedded_device_forwarde.Protocol.Header.{Header, ProtoErr}
use embedded_device_forwarde.Registry.Table.{find_by_fd}
use embedded_device_forwarde.Registry.Invariant.{IsValid, unregister-IsValid}
use embedded_device_forwarde.Registry.Lookup.{find_by_fd-unregister}
use embedded_device_forwarde.Ipc.Server.{
  Drained, waiting, broken, stop, drain, Round, received, stopped, interrupted, failed, Session,
  still_open, closed, End, handle_client, Accept, no_client, client, world, ipc_thread,
}
use embedded_device_forwarde.Ipc.Drain.{
  answer, framed, failing, frame_size, drain-frame, drain-fail,
}
use embedded_device_forwarde.Ipc.Chunks.{after_drain, handle_client-received}
use embedded_device_forwarde.Dispatcher.Dispatch.{World, dispatch, hang_up}
use embedded_device_forwarde.Dispatcher.Effects.{proto_dispatch-IsValid}

abbrev pub drained_world {ℓ} : {W : Type ℓ} → Drained W → W
drained_world (waiting rest w) = w
drained_world (broken e w) = w

-- A property that every frame and every hang-up keep is kept by a whole connection.
module _ {W : Type 0} (dispatch : ℤ → Header → List ℕ → W → W) (hang_up : ℤ → W → W)
    (P : W → Type 0)
    (frames : (fd : ℤ) (hdr : Header) (payload : List ℕ) (w : W)
      → P w
      → P (dispatch fd hdr payload w))
    (hangs : (fd : ℤ) (w : W) → P w → P (hang_up fd w)) where
  stop_keeps : (e : ProtoErr) (buf : List ℕ) (w : W) → P w → P (drained_world (stop e buf w))
  stop_keeps e buf w p = ground arith

  drain_keeps_below :
      (k : ℕ) (fd : ℤ) (buf : List ℕ) (w : W)
      → length buf < k
      → P w
      → P (drained_world (drain dispatch fd buf w))
  drain_keeps_below zero fd buf w lt p = absurd (omega arith)
  drain_keeps_below (suc k) fd buf w lt p = elim (answer buf) [
    | framed n h payload d ↦
        let s = frame_size buf d in
        subst (λ r. P (drained_world r)) (sym (drain-frame dispatch fd buf w d))
          (drain_keeps_below k fd (drop n buf) (dispatch fd h payload w)
            (omega (arith, length-drop n buf, s.0, s.1)) (frames fd h payload w p))
    | failing err d ↦
        subst (λ r. P (drained_world r)) (sym (drain-fail dispatch fd buf w d))
          (stop_keeps err buf w p)
  ]

  pub drain_keeps :
      (fd : ℤ) (buf : List ℕ) (w : W) → P w → P (drained_world (drain dispatch fd buf w))
  drain_keeps fd buf w = drain_keeps_below (suc (length buf)) fd buf w (omega arith)

  -- A session that has kept the property, and was hung up on if it is closed.
  abbrev pub Ends : ℤ → Session W → Type 0
  Ends fd (still_open buf w) = P w
  Ends fd (closed e w) = (w0 : W) × P w0 × (w ≡ hang_up fd w0)

  pub handle_client-Ends :
      (fd : ℤ) (buf : List ℕ) (rounds : List Round) (w : W)
      → P w
      → Ends fd (handle_client dispatch hang_up fd buf rounds w)
  unfolding handle_client
  handle_client-Ends fd buf [] w p = p
  handle_client-Ends fd buf (stopped ∷ rounds) w p = (w, p, refl)
  handle_client-Ends fd buf (interrupted ∷ rounds) w p = handle_client-Ends fd buf rounds w p
  handle_client-Ends fd buf (failed ∷ rounds) w p = (w, p, refl)
  handle_client-Ends fd buf (received [] ∷ rounds) w p = (w, p, refl)
  handle_client-Ends fd buf (received (b ∷ bytes) ∷ rounds) w p =
      subst (Ends fd) (sym (handle_client-received dispatch hang_up fd buf bytes b rounds w)) (
        go (λ rest w'. handle_client-Ends fd rest rounds w')
          (drain dispatch fd (buf ++ b ∷ bytes) w) (drain_keeps fd (buf ++ b ∷ bytes) w p))
    where
      go :
          ((rest : List ℕ) (w' : W)
            → P w'
            → Ends fd (handle_client dispatch hang_up fd rest rounds w'))
          → (d : Drained W) → P (drained_world d)
          → Ends fd (after_drain dispatch hang_up fd d rounds)
      go ih (broken e w') q = (w', q, refl)
      go ih (waiting rest w') q = ih rest w' q

  Ends-world : (fd : ℤ) (s : Session W) → Ends fd s → P (world s)
  Ends-world fd (still_open buf w) p = p
  Ends-world fd (closed e w) (w0, p, k) = subst P (sym k) (hangs fd w0 p)

  pub ipc_thread_keeps :
      (turns : List Accept) (w : W) → P w → P (ipc_thread dispatch hang_up turns w)
  unfolding ipc_thread
  ipc_thread_keeps [] w p = p
  ipc_thread_keeps (no_client ∷ turns) w p = ipc_thread_keeps turns w p
  ipc_thread_keeps (client fd rounds ∷ turns) w p =
      ipc_thread_keeps turns (world (handle_client dispatch hang_up fd [] rounds w)) (
        Ends-world fd (handle_client dispatch hang_up fd [] rounds w)
          (handle_client-Ends fd [] rounds w p))

module _ (cjson : Cjson) where
  -- Serving any clients, whatever bytes they send and however their connections end, leaves the
  -- registry valid.
  pub ipc_thread-IsValid :
      (turns : List Accept) (w : World)
      → IsValid w.registry
      → IsValid (ipc_thread (dispatch cjson) hang_up turns w).registry
  unfolding hang_up
  ipc_thread-IsValid =
      ipc_thread_keeps (dispatch cjson) hang_up (λ w. IsValid w.registry)
        (proto_dispatch-IsValid cjson) (λ fd w v. unregister-IsValid fd w.registry v)

  -- A client that has been hung up on holds no slot any more: whatever it sent and however the
  -- connection ended, its fd is not found in the registry.
  pub closed-find_by_fd :
      (fd : ℤ) (buf : List ℕ) (rounds : List Round) (w w' : World) (e : End)
      → IsValid w.registry
      → handle_client (dispatch cjson) hang_up fd buf rounds w ≡ closed e w'
      → find_by_fd fd w'.registry ≡ none
  unfolding hang_up
  closed-find_by_fd fd buf rounds w w' e v k =
      let (w0, v0, hung) =
        subst
          (Ends (dispatch cjson) hang_up (λ u. IsValid u.registry) (proto_dispatch-IsValid cjson)
            (λ f u. unregister-IsValid f u.registry) fd)
          k
          (handle_client-Ends (dispatch cjson) hang_up (λ u. IsValid u.registry)
            (proto_dispatch-IsValid cjson) (λ f u. unregister-IsValid f u.registry) fd buf rounds w
            v) in
      ap (λ u. find_by_fd fd u.registry) hung
      ∙ find_by_fd-unregister fd fd w0.registry v0
      ∙ rw (int_eq_refl fd)
