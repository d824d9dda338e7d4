-- ===== src/Backoff/Marks.antt =====
-- Which errors are marked for another attempt.
use rag_ai_system.Prelude.{◌≡◌, refl, ◌⊎◌, inl, inr, true, false, some, Bool-cases, pos}
use rag_ai_system.Backoff.{
  Err, retryable, as_retryable, is_context_end, as_net_error, mark_transport,
}

-- MarkTransport marks an error exactly when it comes from the network and is no end of the context,
-- and what it returns still ends the context exactly when the error did.
pub mark_transport_lem :
    (cause : Err)
    → (e : Err) × (mark_transport (some cause) ≡ some e)
      × (is_context_end e ≡ is_context_end cause)
      × ((e ≡ cause) × ((is_context_end cause ≡ true) ⊎ (as_net_error cause ≡ false))
          ⊎ (as_retryable e ≡ some (pos 0))
            × (is_context_end cause ≡ false)
            × (as_net_error cause ≡ true))
unfolding mark_transport as_retryable
mark_transport_lem cause = elim (Bool-cases (is_context_end cause)) [
  | inl ended ↦ (cause, rw ended, refl, inl (refl, inl ended))
  | inr open_ctx ↦ elim (Bool-cases (as_net_error cause)) [
    | inl net ↦ (retryable cause (pos 0), rw (open_ctx, net), refl, inr (refl, open_ctx, net))
    | inr local ↦ (cause, rw (open_ctx, local), refl, inl (refl, inr local))
  ]
]
