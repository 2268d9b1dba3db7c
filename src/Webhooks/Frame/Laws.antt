-- ===== src/Webhooks/Frame/Laws.antt =====
-- Only a signed and recent delivery puts work on the queue.
use text.Mathlib.TextLemmas.{nil-append, cons-append}
use gb_automations.Base.{
  ℕ, ◌+◌, ◌≤◌, String, ◌<>◌, Bool, true, false, Option, none, some, [], ◌≡◌, ◌≢◌, refl, ap, sym,
  ◌∙◌, arith, ◌&&◌, Bool-cases, inl, inr, truthy, or_text, str_eq, str_eq_iff, single,
}
use gb_automations.Toggl.Durations.{natural}
use gb_automations.Toggl.Reconcile.{after_prefix}
use gb_automations.Worker.Engines.{Attempt, returned, raised}
use gb_automations.Webhooks.Digest.{compare_digest-true}
use gb_automations.Webhooks.Frame.{
  Hook, Headers, Payload, Answers, in_window, has_digest, verify_frame_hmac, handle_verified,
  frame_webhook,
}

after_prefix-eq : (p s t : String) → after_prefix p s ≡ some t → s ≡ p <> t
unfolding after_prefix
after_prefix-eq String.[] s t h = ground (arith, nil-append t)
after_prefix-eq (String.◌∷◌ c ps) String.[] t h = ground arith
after_prefix-eq (String.◌∷◌ c ps) (String.◌∷◌ d s) t h =
    elim (Bool-cases (str_eq (String.◌∷◌ c String.[]) (String.◌∷◌ d String.[]))) [
      | inr b ↦ ground (arith, b, h)
      | inl b ↦
          sym (single d s)
          ∙ ap (λ x. x <> s)
              (sym ((str_eq_iff (String.◌∷◌ c String.[]) (String.◌∷◌ d String.[])).0 b))
          ∙ single c s
          ∙ ap (String.◌∷◌ c) (after_prefix-eq ps s t (rw (after_prefix, b) at h))
          ∙ sym (cons-append c ps t)
    ]

in_window-lem :
    (now : ℕ) (ts : Option ℕ)
    → in_window now ts ≡ true
    → (n : ℕ) × (ts ≡ some n) × (now ≤ n + 300) × (n ≤ now + 300)
in_window-lem now none h = ground arith
in_window-lem now (some n) h = (n, refl, ground (arith, h), ground (arith, h))

has_digest-eq : (s : Option String) (d : String) → has_digest s d ≡ returned true → s ≡ some d
unfolding has_digest
has_digest-eq none d h = ground (arith, h)
has_digest-eq (some s) d h = ap some (compare_digest-true s d h)

-- The timestamp is within five minutes of the clock, and the signature is that of the body at it.
abbrev pub Signed : Hook → String → Headers → Type 0
Signed hook body headers =
    ((n : ℕ) × (natural (or_text headers.timestamp "") ≡ some n)
      × (hook.now ≤ n + 300)
      × (n ≤ hook.now + 300))
    × (or_text headers.signature ""
        ≡ "v0="
          <> hook.hmac hook.frame_webhook_secret
              ("v0:" <> or_text headers.timestamp "" <> ":" <> body))
    × (truthy hook.frame_webhook_secret ≡ true)

four : (a b c d : Bool) → (a && b && c && d) ≡ true → (a ≡ true) × (d ≡ true)
four true true true true h = (refl, refl)
four true true true false h = ground (arith, h)
four true true false d h = ground (arith, h)
four true false c d h = ground (arith, h)
four false b c d h = ground (arith, h)

verify_frame_hmac-Signed :
    (hook : Hook) (body : String) (headers : Headers)
    → verify_frame_hmac hook body headers ≡ returned true
    → Signed hook body headers
unfolding verify_frame_hmac
verify_frame_hmac-Signed hook body headers =
    let signature = or_text headers.signature "" in
    let timestamp = or_text headers.timestamp "" in
    let ts = natural timestamp in
    let digest = hook.hmac hook.frame_webhook_secret ("v0:" <> timestamp <> ":" <> body) in
    let secret = truthy hook.frame_webhook_secret in
    elim (Bool-cases (secret && truthy signature && truthy timestamp && in_window hook.now ts)) [
      | inr e ↦ rw e (λ h. ground (arith, h))
      | inl e ↦ rw e (λ h.
          let r = four secret (truthy signature) (truthy timestamp) (in_window hook.now ts) e in
          (
            in_window-lem hook.now ts r.1,
            after_prefix-eq "v0=" signature digest
                (has_digest-eq (after_prefix "v0=" signature) digest h),
            r.0,
          ))
    ]

asks-returned :
    (parse : String → Payload) (answers : Answers) (body : String) (v : Attempt Bool)
    → (handle_verified parse answers body v).requests ≢ []
    → v ≡ returned true
unfolding handle_verified
asks-returned parse answers body (returned true) h = refl
asks-returned parse answers body (returned false) h = absurd (h refl)
asks-returned parse answers body (raised e) h = absurd (h refl)

-- A delivery that puts anything on the queue has a timestamp within five minutes of the clock and the
-- signature, by the webhook's secret, of the body at that timestamp, and the secret is set.
pub frame_webhook-Signed :
    (hook : Hook) (parse : String → Payload) (answers : Answers) (body : String) (headers : Headers)
    → (frame_webhook hook parse answers body headers).requests ≢ []
    → Signed hook body headers
unfolding frame_webhook
frame_webhook-Signed hook parse answers body headers h =
    verify_frame_hmac-Signed hook body headers
      (asks-returned parse answers body (verify_frame_hmac hook body headers) h)
