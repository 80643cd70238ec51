-- ===== src/Context/Prompts.antt =====
-- context.py: the prompt of a pack that was selected.
use trace_gate_framework.Prelude.{
  String, ◌≡◌, ◌≢◌, ◌⊎◌, refl, sym, ◌∙◌, Bool, inl, inr, Option, List, [], ◌∷◌, arith, string_Eq,
  string_eq_iff, concat, ok, string_discrete,
}
use trace_gate_framework.Documents.{AccessIntent, ReadProfile}
use trace_gate_framework.Context.{Time, Artifact, ContextPack, Platform}
use trace_gate_framework.Context.Packing.{
  select_context, digest_body, PromptBody, PromptEnvelope, prompt_body, sorted, system, context,
  user, assemble_prompt,
}
use trace_gate_framework.Context.Budget.{pack_within_limits}

module _ (platform : Platform) (schema_messages_intent : AccessIntent → List String)
    (schema_messages_profile : ReadProfile → List String) (clock : Time) where
  packed_digest :
      (intent : AccessIntent) (profile : ReadProfile) (artifacts : List Artifact)
      (evaluated_at : Option Time) (pack : ContextPack)
      → select_context platform schema_messages_intent schema_messages_profile clock intent profile
          artifacts evaluated_at
        ≡ ok pack
      → pack.digest ≡ digest_body platform pack.body
  unfolding select_context
  packed_digest intent profile artifacts evaluated_at pack h = ground arith

  -- A pack that is returned with an item is assembled into a prompt, whose messages are the
  -- instruction, the items of the pack with its digest and the sorted tools, and the request.
  pub selected_pack_assembles :
      (intent : AccessIntent) (profile : ReadProfile) (artifacts : List Artifact)
      (evaluated_at : Option Time) (pack : ContextPack) (digest_prompt : PromptBody → String)
      (before : String → String → Bool) (system_instruction request_text : String)
      (tool_ids : List String)
      → select_context platform schema_messages_intent schema_messages_profile clock intent profile
          artifacts evaluated_at
        ≡ ok pack
      → pack.items ≢ []
      → assemble_prompt platform digest_prompt before system_instruction request_text pack tool_ids
        ≡ ok (record {
          body = record {
            messages =
                system system_instruction
                ∷ context pack.items pack.digest (sorted before tool_ids)
                ∷ user request_text
                ∷ [];
            context_pack_digest = pack.digest;
            tool_ids = sorted before tool_ids;
          };
          digest = digest_prompt (
              prompt_body platform digest_prompt before system_instruction request_text pack
                tool_ids);
        })
  unfolding assemble_prompt
  selected_pack_assembles intent profile artifacts evaluated_at pack digest_prompt before
        system_instruction request_text tool_ids h n =
      let (r, auth, kept) =
        pack_within_limits platform schema_messages_intent schema_messages_profile clock intent
          profile artifacts evaluated_at pack h in
      let allowed = (string_eq_iff pack.decision "allow").1 (kept.decided.1 n) in
      let whole =
        (string_eq_iff pack.digest (digest_body platform pack.body)).1
          (packed_digest intent profile artifacts evaluated_at pack h) in
      rw (allowed, whole) refl

module _ (platform : Platform) (digest_prompt : PromptBody → String)
    (before : String → String → Bool) where
  -- Of two packs with one digest that are assembled, the bodies have one canonical text, unless
  -- SHA-256 gives the two texts one digest.
  pub assembled_digest_binds :
      (system_instruction request_text : String) (tool_ids : List String) (p q : ContextPack)
      (x y : PromptEnvelope)
      → assemble_prompt platform digest_prompt before system_instruction request_text p tool_ids
        ≡ ok x
      → assemble_prompt platform digest_prompt before system_instruction request_text q tool_ids
        ≡ ok y
      → p.digest ≡ q.digest
      → (platform.dumps p.body ≡ platform.dumps q.body)
        ⊎ ((platform.dumps p.body ≢ platform.dumps q.body)
            × (concat "sha256:" (platform.sha256 (platform.dumps p.body))
                ≡ concat "sha256:" (platform.sha256 (platform.dumps q.body))))
  unfolding assemble_prompt digest_body
  assembled_digest_binds system_instruction request_text tool_ids p q x y hp hq same =
      elim (string_discrete (platform.dumps p.body) (platform.dumps q.body)) [
        | yes e ↦ inl e
        | no n ↦ inr (n, sym (assembled p x hp) ∙ same ∙ assembled q y hq)
      ]
    where
      assembled :
          (p : ContextPack) (x : PromptEnvelope)
          → assemble_prompt platform digest_prompt before system_instruction request_text p tool_ids
            ≡ ok x
          → p.digest ≡ concat "sha256:" (platform.sha256 (platform.dumps p.body))
      assembled p x h = ground (
        arith,
        string_eq_iff p.digest (concat "sha256:" (platform.sha256 (platform.dumps p.body))),
      )
