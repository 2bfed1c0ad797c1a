-- ===== src/Redis/Client/Samples.antt =====
-- The list of latencies of one provider and model, which internal/redis/client.go keeps short.
use llmwatch.Base.{
  ℕ, ◌-◌, ◌≤◌, ◌*◌, Bytes, List, [], ◌∷◌, ◌++◌, length, length-drop, subst, Bool, bytes_eq,
  bytes_beq_iff, ℤ, format_int, Option, Float64, Result, ok, ◌≡◌, sym, ◌∙◌, pos, arith,
}
use llmwatch.Redis.Server.{Server, IsServer, take_last, on_lists, rpush, ltrim_last, expire}
use llmwatch.Redis.Keys.{latency_key, sanitize_model}
use llmwatch.Redis.Client.{append_latency, in_context, done}

length-take_last : {A : Type 0} (n : ℕ) (xs : List A) → length (take_last n xs) ≤ n
length-take_last n xs = omega (arith, length-drop (length xs - n) xs)

on_lists-append :
    (k v : Bytes) (xs : List Bytes)
    → on_lists (rpush k v ∷ ltrim_last k 1000 ∷ expire k (pos (25 * 60 * 60)) ∷ []) k xs
      ≡ take_last 1000 (xs ++ v ∷ [])
on_lists-append k v xs = ground (arith, bytes_beq_iff k k)

sent_of_done : (text : Bytes) (r : Result (Unit {0})) → in_context text done r ≡ ok tt → r ≡ ok tt
sent_of_done text r h = ground (arith, h)

module _ {F : Type 0} ⦃fl : Float64 F⦄ (R : Server F) (parse_float : Bytes → Option F)
    (sort : List F → List F) (exists : R.State → Bytes → Bool)
    (list_at : R.State → Bytes → List Bytes) (laws : IsServer R exists list_at) where
  -- Over a server that does what the commands' documentation says: when AppendLatency succeeds,
  -- the list of the provider and the model is what it was with the new latency at its end, less
  -- what is before the last 1000, so that it never holds more.
  pub append_latency_keeps_last :
      (provider model : Bytes) (latency : ℤ) (s : R.State)
      → (append_latency R parse_float sort provider model latency s).1 ≡ ok tt
      → (list_at
            (append_latency R parse_float sort provider model latency s).0
            (latency_key provider (sanitize_model model))
          ≡ take_last 1000
              (list_at s (latency_key provider (sanitize_model model)) ++ format_int latency ∷ []))
        × (length (
              list_at
                (append_latency R parse_float sort provider model latency s).0
                (latency_key provider (sanitize_model model)))
            ≤ 1000)
  unfolding append_latency
  append_latency_keeps_last provider model latency s h =
      let k = latency_key provider (sanitize_model model) in
      let kept = laws.exec_list _ k s (sent_of_done _ _ h) ∙ on_lists-append k _ (list_at s k) in
      (
        kept,
        subst (λ xs. length xs ≤ 1000) (sym kept)
            (length-take_last 1000 (list_at s k ++ format_int latency ∷ [])),
      )
