-- ===== src/Broker/Select.antt =====
-- What SelectWorker of internal/broker/broker.go returns, and what it leaves in the channel.
use mathlib.Core.List.{append-nil, append_assoc}
use job_manager_quorum.Common.{
  ℕ, ◌+◌, ◌≤◌, ◌≡◌, refl, sym, String, true, false, Option, none, some, List, [], ◌∷◌, ◌++◌, length,
  length-append, All, arith, Bool-cases, inl, inr,
}
use job_manager_quorum.Broker.{
  Broker, can_handle, try_send, try_send_all, select_loop, select_worker,
}

try_send_all-append :
    (cap : ℕ) (ws ch : List ℕ) → length ch + length ws ≤ cap → try_send_all cap ws ch ≡ ch ++ ws
unfolding try_send_all try_send
try_send_all-append cap [] ch h = sym (append-nil ch)
try_send_all-append cap (w ∷ ws) ch h = ground (
  arith,
  try_send_all-append cap ws (ch ++ w ∷ []),
  length-append ch (w ∷ []),
  append_assoc ch (w ∷ []) ws,
)

module _ (b : Broker) (job_type : String) (cap : ℕ) where
  -- The chosen worker is the first capable one in the channel; those before it moved behind the
  -- others. Without a capable one the channel is as before.
  abbrev pub Selected : List ℕ → Option ℕ × List ℕ → Type 0
  Selected available (none, left) =
      (left ≡ available) × All (λ w. can_handle b w job_type ≡ false) available
  Selected available (some w, left) =
      (before after : List ℕ) × (available ≡ before ++ w ∷ after)
      × (left ≡ after ++ before)
      × (can_handle b w job_type ≡ true)
      × All (λ v. can_handle b v job_type ≡ false) before

  All-snoc :
      (xs : List ℕ) (w : ℕ)
      → All (λ v. can_handle b v job_type ≡ false) xs
      → can_handle b w job_type ≡ false
      → All (λ v. can_handle b v job_type ≡ false) (xs ++ w ∷ [])
  All-snoc [] w h p = (p, tt)
  All-snoc (x ∷ xs) w h p = (h.0, All-snoc xs w h.1 p)

  select_loop-Selected :
      (skipped ch : List ℕ)
      → length skipped + length ch ≤ cap
      → All (λ v. can_handle b v job_type ≡ false) skipped
      → Selected (skipped ++ ch) (select_loop b job_type cap (length ch) skipped ch)
  unfolding select_loop
  select_loop-Selected skipped [] h none_yet =
      rw (append-nil skipped, try_send_all-append cap skipped [] (omega arith)) (refl, none_yet)
  select_loop-Selected skipped (w ∷ ch) h none_yet = elim (Bool-cases (can_handle b w job_type)) [
    | inl yes_w ↦
        rw (yes_w, try_send_all-append cap skipped ch (omega arith))
          (skipped, ch, refl, refl, yes_w, none_yet)
    | inr no_w ↦ rw no_w (
        rw (append_assoc skipped (w ∷ []) ch) at (
          select_loop-Selected (skipped ++ w ∷ []) ch
            (omega (arith, length-append skipped (w ∷ []))) (All-snoc skipped w none_yet no_w)))
  ]

  -- SelectWorker on a channel within its capacity takes the first worker that can handle the job's
  -- type and drops nobody: those before it move behind the others. It fails exactly when nobody in
  -- the channel can handle the type, and then leaves the channel as it was.
  pub select_worker-Selected :
      (available : List ℕ)
      → length available ≤ cap
      → Selected available (select_worker b job_type cap available)
  unfolding select_worker
  select_worker-Selected available h = select_loop-Selected [] available (omega arith) tt
