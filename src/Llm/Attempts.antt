-- ===== src/Llm/Attempts.antt =====
-- What a call of the language model sends, and what it returns.
use wager.Prelude.{◌≡◌, refl, String, Option, none, some, ◌∷◌, ◌⊎◌, inl, inr, arith}
use wager.Exec.{ok, ◌>>=◌}
use wager.World.{World, Reply, answered, raised, asked_llm}
use wager.Llm.{messages_of, call_llm, attempts}

Reply-cases :
    {A : Type 0} (r : Reply A) → ((a : A) × (r ≡ answered a)) ⊎ ((e : String) × (r ≡ raised e))
Reply-cases (answered a) = inl (a, refl)
Reply-cases (raised e) = inr (e, refl)

module _ {F T : Type 0} (validate : Option String → Reply T) (system user : String)
    (w : World F) where
  -- An answer of the model to a prompt of the call, that the schema accepts as this value.
  abbrev pub IsValidAnswer : T → Type 0
  IsValidAnswer t =
      (last_error : Option String) × (content : Option String) × (w.host.services.chat
          (messages_of system user last_error)
        ≡ answered content)
      × (validate content ≡ answered t)

  -- call_llm makes one or two requests and changes nothing else.
  pub call_llm_requests :
      ((call_llm validate system user w).1 ≡ record w { sent = asked_llm ∷ w.sent })
      ⊎ ((call_llm validate system user w).1 ≡ record w { sent = asked_llm ∷ asked_llm ∷ w.sent })
  unfolding call_llm attempts ◌>>=◌
  call_llm_requests = elim (Reply-cases (w.host.services.chat (messages_of system user none))) [
    | inr (e, raises) ↦ inl (rw raises refl)
    | inl (c, answer) ↦ elim (Reply-cases (validate c)) [
      | inl (t, valid) ↦ inl (rw answer (rw valid refl))
      | inr (e, invalid) ↦ rw answer (
          rw invalid (elim (Reply-cases (w.host.services.chat (messages_of system user (some e)))) [
            | inr (x, raises) ↦ inr (rw raises refl)
            | inl (d, second) ↦ elim (Reply-cases (validate d)) [
              | inl (t, valid) ↦ inr (rw second (rw valid refl))
              | inr (x, again) ↦ inr (rw second (rw again refl))
            ]
          ]))
    ]
  ]

  -- What call_llm returns is an answer of the model to one of its prompts that the schema accepts.
  pub call_llm_valid : {t : T} → (call_llm validate system user w).0 ≡ ok t → IsValidAnswer t
  unfolding call_llm attempts ◌>>=◌
  call_llm_valid h = elim (Reply-cases (w.host.services.chat (messages_of system user none))) [
    | inr (e, raises) ↦ ground arith
    | inl (c, answer) ↦ elim (Reply-cases (validate c)) [
      | inl (t, valid) ↦ (none, c, answer, ground arith)
      | inr (e, invalid) ↦
          elim (Reply-cases (w.host.services.chat (messages_of system user (some e)))) [
            | inr (x, raises) ↦ ground arith
            | inl (d, second) ↦ elim (Reply-cases (validate d)) [
              | inl (t, valid) ↦ (some e, d, second, ground arith)
              | inr (x, again) ↦ ground arith
            ]
          ]
    ]
  ]
