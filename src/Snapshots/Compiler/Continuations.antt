-- ===== src/Snapshots/Compiler/Continuations.antt =====
-- The prompts of snapshots/compiler.py beside each other and beside those of the decision API.
use Prim.Native.String.{len, slice}
use riderless.Prelude.{
  ℕ, String, ◌≡◌, refl, ap, subst, Bool, some, List, [], ◌∷◌, ◌++◌, take, length, arith,
  if◌then◌else◌,
}
use text.Mathlib.TextLemmas.{append-nil}
use text.Mathlib.TextPositions.{slice-append_left}
use riderless.Json.{Json}
use riderless.Compiler.{
  Question, Profile, Message, Compiled, ok, err, ◌>>=◌, options, render, shared_lines, option_line,
  option_lines, instruction_lines, question_heading, instructions, question_lines, compile_question,
  system_instruction, kind, prompt_version,
}
use riderless.Compiler.Text.{◌^^◌, join, join-append}
use riderless.Compiler.Prompts.{shared_text}
use riderless.Snapshots.Schema.{Boundary}
use riderless.Snapshots.Compiler.{
  SnapshotInput, CompiledCreate, CompiledSnapshotQuestion, Block, labels_for, state_prefix,
  block_options, block_lines, question_block, compile_create, compiled_question,
  compile_context_followup, compile_readout_followup, rstrip_newlines, assistant, user,
  decision_answer_prefix,
}

abbrev pub input_state : SnapshotInput → Json
input_state (SnapshotInput.context_input s) = s
input_state (SnapshotInput.decision_input s q) = s
input_state (SnapshotInput.prompt_input s p) = s

module _ (repr : ℕ → String) where
  -- the lines of a decision prompt above its question block
  abbrev pub head_lines : Json → List String
  head_lines state = system_instruction ∷ "" ∷ "STATE:" ∷ render repr state ∷ "" ∷ []

  join-block :
      (state : Json) (lines : List String)
      → join (shared_lines repr state ++ lines)
        ≡ join (head_lines state) ^^ ("\n" ^^ join ("QUESTION:" ∷ lines))
  unfolding shared_lines
  join-block state lines =
      join-append ("" ∷ "STATE:" ∷ render repr state ∷ "" ∷ []) system_instruction "QUESTION:" lines

  -- the two loops over the options write the same lines
  block_options-option_lines :
      (labels ids : List String) (ds : List Json)
      → block_options repr labels ids ds ≡ option_lines repr labels ids ds
  unfolding block_options option_lines
  block_options-option_lines (l ∷ labels) (id ∷ ids) (d ∷ ds) =
      ap (λ rest. option_line repr l id (render repr d) ∷ rest)
        (block_options-option_lines labels ids ds)
  block_options-option_lines [] ids ds = refl
  block_options-option_lines (l ∷ labels) [] ds = refl
  block_options-option_lines (l ∷ labels) (id ∷ ids) [] = refl

  block_lines-question_lines :
      (q : Question) (labels : List String)
      → block_lines repr q labels ≡ "QUESTION:" ∷ question_lines repr q labels
  unfolding block_lines question_lines instruction_lines
  block_lines-question_lines q labels =
      ap
        (λ rest.
          "QUESTION:"
          ∷ question_heading q
          ∷ (instruction_lines repr (render repr (instructions q))
              ++ ("" ∷ "OPTIONS:" ∷ (rest ++ ("" ∷ "Reply with one option label only." ∷ [])))))
        (block_options-option_lines labels (options q).ids (options q).descriptions)

  -- The two compilers write the block of a question separately. The decision API compiles a question exactly
  -- where the snapshot API does: its prompt is its own head followed by the question block of the other, with the same labels, options and legend, and the
  -- shared bytes are the shared text where they are asked for.
  pub question_block-compile_question :
      (id : String) (q : Question) (state : Json) (profile : Profile) (share : Bool)
      → compile_question repr id q state profile share ≡ (do
        block ← question_block repr q profile.labels
        chosen ← labels_for q profile.labels
        ok (record {
          id = id;
          kind = kind q;
          messages = user (join (head_lines state) ^^ ("\n" ^^ block.text)) ∷ [];
          answer_prefix = decision_answer_prefix;
          labels = chosen;
          option_ids = block.option_ids;
          legend = block.legend;
          shared_prefix_bytes = if share then len (shared_text repr state) else 0;
          prompt_version = prompt_version;
        }))
  unfolding compile_question question_block labels_for
  question_block-compile_question id q state profile share = ground (
    arith,
    join-block state (question_lines repr q (take (length (options q).ids) profile.labels)),
    block_lines-question_lines q (take (length (options q).ids) profile.labels),
  )

  -- A snapshot is frozen after the state, whatever follows it: the content starts with the state's
  -- prefix, and `content_bytes` is where that prefix ends.
  pub compile_create-prefix :
      (input : SnapshotInput) (labels : List String) (c : CompiledCreate)
      → compile_create repr input labels ≡ ok c
      → (tail : String) × (c.messages ≡ user (state_prefix repr (input_state input) ^^ tail) ∷ [])
        × (slice (state_prefix repr (input_state input) ^^ tail) 0 c.content_bytes
            ≡ state_prefix repr (input_state input))
  unfolding compile_create
  compile_create-prefix (SnapshotInput.context_input s) labels c h = (
    "",
    ground (arith, h, append-nil (state_prefix repr s)),
    ground (arith, h, slice-append_left (state_prefix repr s) ""),
  )
  compile_create-prefix (SnapshotInput.prompt_input s p) labels c h = (
    "PROMPT:\n" ^^ p,
    ground (arith, h),
    ground (arith, h, slice-append_left (state_prefix repr s) ("PROMPT:\n" ^^ p)),
  )
  compile_create-prefix (SnapshotInput.decision_input s q) labels c h =
      go (question_block repr q labels) (labels_for q labels) h
    where
      go :
          (m : Compiled Block) (n : Compiled (List String))
          → (do
            block ← m
            chosen ← n
            ok (record {
              messages = user (state_prefix repr s ^^ block.text) ∷ [];
              answer_prefix = "Answer:\n";
              boundary = Boundary.readout;
              content_bytes = len (state_prefix repr s);
              labels = some chosen;
            }))
            ≡ ok c
          → (tail : String) × (c.messages ≡ user (state_prefix repr s ^^ tail) ∷ [])
            × (slice (state_prefix repr s ^^ tail) 0 c.content_bytes ≡ state_prefix repr s)
      go (ok b) (ok l) h = (
        b.text,
        ground (arith, h),
        ground (arith, h, slice-append_left (state_prefix repr s) b.text),
      )
      go (ok b) (err e) h = absurd (ground (arith, h))
      go (err e) n h = absurd (ground (arith, h))

  -- A question that follows a frozen context is compiled to the prompt, answer prefix and labels that
  -- the same state and question have when they are compiled together.
  pub followup-create :
      (state : Json) (id : String) (q : Question) (labels : List String)
      (frozen together : CompiledCreate) (f : CompiledSnapshotQuestion)
      → compile_create repr (SnapshotInput.context_input state) labels ≡ ok frozen
      → compile_create repr (SnapshotInput.decision_input state q) labels ≡ ok together
      → compile_context_followup repr frozen.messages id q labels ≡ ok f
      → (f.messages ≡ together.messages)
        × (f.answer_prefix ≡ together.answer_prefix)
        × (some f.labels ≡ together.labels)
  unfolding compile_create compile_context_followup
  followup-create state id q labels frozen together f a b h =
      let ms : frozen.messages ≡ user (state_prefix repr state) ∷ [] = ground (arith, a) in
      let k : compile_context_followup repr (user (state_prefix repr state) ∷ []) id q labels
          ≡ ok f =
        subst (λ z. compile_context_followup repr z id q labels ≡ ok f) ms h in
      (ground (arith, b, k), ground (arith, b, k), ground (arith, b, k))

  -- the rest of a continuation, whatever came before
  asked-id :
      (b : Compiled Block) (f : Block → List Message) (id : String) (q : Question)
      (labels : List String) (c : CompiledSnapshotQuestion)
      → (do block ← b; compiled_question repr id q (f block) labels) ≡ ok c
      → c.id ≡ id
  unfolding compiled_question
  asked-id (err x) f id q labels c h = absurd (ground (arith, h))
  asked-id (ok b) f id q labels c h = ground (arith, h)

  pub compile_context_followup-id :
      (messages : List Message) (id : String) (q : Question) (labels : List String)
      (c : CompiledSnapshotQuestion)
      → compile_context_followup repr messages id q labels ≡ ok c
      → c.id ≡ id
  unfolding compile_context_followup
  compile_context_followup-id [] id q labels c h = absurd (ground (arith, h))
  compile_context_followup-id (m ∷ ms) id q labels c h =
      asked-id (question_block repr q labels) (λ b. user (m.content ^^ b.text) ∷ []) id q labels c h

  pub compile_readout_followup-id :
      (messages : List Message) (prefix id : String) (q : Question) (labels : List String)
      (c : CompiledSnapshotQuestion)
      → compile_readout_followup repr messages prefix id q labels ≡ ok c
      → c.id ≡ id
  unfolding compile_readout_followup
  compile_readout_followup-id messages prefix id q labels c h =
      asked-id (question_block repr q labels)
        (λ b. messages ++ (assistant (rstrip_newlines prefix) ∷ user b.text ∷ [])) id q labels c h
