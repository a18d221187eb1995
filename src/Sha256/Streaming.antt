-- ===== src/Sha256/Streaming.antt =====
-- `lr_sha256_update` of src/sha256.c: a context after some updates depends on the bytes alone, however
-- they were cut.
use liric.Base.{ℕ, suc, ◌+◌, ◌-◌, ◌%◌, ◌≤◌, ◌<◌, ◌≡◌, refl, sym, ap, ◌∙◌, arith}
use liric.Base.{inl, inr, Bool-cases, List, [], ◌∷◌, ◌++◌, length, take, drop, length-append, u64}
use liric.Base.{ltb, if_true, if_false, length-drop}
use liric.Base.{take-append_right, drop-append_right, append_assoc, append_nil}
use liric.Sha256.{Words, Context, buflen, compress, absorb, absorb_rest, first_state, sha256_init}
use liric.Sha256.{sha256_update}
use liric.Sha256.Absorb.{absorb_block, absorb_short, absorb_fuel, absorb-append, length-absorb}

-- The context for the bytes of a state's buffer and the new ones.
abbrev joined : Context → List ℕ → Context
joined ctx bytes = absorb_rest ctx.state (u64 (ctx.total + length bytes)) (ctx.buf ++ bytes)

context_of : ℕ → Words × List ℕ → Context
context_of total (state, buf) = record { state = state; buf = buf; total = total }

module _ (ctx : Context) (bytes : List ℕ) (below : buflen ctx < 64) where
  abbrev total : ℕ
  total = u64 (ctx.total + length bytes)

  update_short :
      length bytes < 64 - buflen ctx
      → ◌≡◌ {A = Context}
          (record { state = ctx.state; buf = ctx.buf ++ bytes; total = total })
          (joined ctx bytes)
  unfolding context_of
  update_short short =
      let size = length-append ctx.buf bytes in
      let all =
        absorb_short (length (ctx.buf ++ bytes)) ctx.state (ctx.buf ++ bytes) (omega arith) in
      ap (context_of total) (sym all)

  update_block :
      64 - buflen ctx ≤ length bytes
      → (let fill = 64 - buflen ctx in
          absorb_rest (compress ctx.state (ctx.buf ++ take fill bytes)) total (drop fill bytes)
          ≡ joined ctx bytes)
  unfolding context_of
  update_block long =
      let fill = 64 - buflen ctx in
      let rest = drop fill bytes in
      let size = length-append ctx.buf bytes in
      let size' = length-drop fill bytes in
      let size'' = length-drop 64 (ctx.buf ++ bytes) in
      let block : 64 ≡ length ctx.buf + fill = omega arith in
      let first : take 64 (ctx.buf ++ bytes) ≡ ctx.buf ++ take fill bytes =
        ap (λ n. take n (ctx.buf ++ bytes)) block ∙ take-append_right ctx.buf bytes fill in
      let others : drop 64 (ctx.buf ++ bytes) ≡ rest =
        ap (λ n. drop n (ctx.buf ++ bytes)) block ∙ drop-append_right ctx.buf bytes fill in
      let fuel = length (ctx.buf ++ bytes) in
      let all : absorb fuel ctx.state (ctx.buf ++ bytes)
          ≡ absorb (length rest) (compress ctx.state (ctx.buf ++ take fill bytes)) rest =
        absorb_fuel fuel (suc (length rest)) ctx.state (ctx.buf ++ bytes) (omega arith)
          (omega arith)
        ∙ absorb_block (length rest) ctx.state (ctx.buf ++ bytes) (omega arith)
        ∙ ap (λ b. absorb (length rest) (compress ctx.state b) (drop 64 (ctx.buf ++ bytes))) first
        ∙ ap (absorb (length rest) (compress ctx.state (ctx.buf ++ take fill bytes))) others in
      ap (context_of total) (sym all)

  sha256_update-joined : sha256_update ctx bytes ≡ joined ctx bytes
  unfolding sha256_update
  sha256_update-joined = elim (Bool-cases (ltb 0 (buflen ctx))) [
    | inl some_bytes ↦
        if_true _ _ some_bytes ∙ (elim (Bool-cases (ltb (length bytes) (64 - buflen ctx))) [
          | inl short ↦ if_true _ _ short ∙ update_short (ground arith)
          | inr long ↦ if_false _ _ long ∙ update_block (ground arith)
        ])
    | inr empty ↦
        if_false _ _ empty ∙ ap (absorb_rest ctx.state total) (no_bytes ctx.buf (ground arith))
  ]
    where
      no_bytes : (buf : List ℕ) → length buf ≡ 0 → bytes ≡ buf ++ bytes
      no_bytes [] e = refl
      no_bytes (b ∷ buf) e = absurd (omega arith)

-- The context for the bytes `message`, of which the whole blocks are in the state.
unfoldable pub context_for : List ℕ → Context
context_for message = absorb_rest first_state (u64 (length message)) message

pub buflen-context_for : (message : List ℕ) → buflen (context_for message) ≡ length message % 64
unfolding context_for
buflen-context_for message = length-absorb (length message) first_state message (omega arith)

-- An update appends its bytes to the message.
pub sha256_update-context_for :
    (message bytes : List ℕ)
    → sha256_update (context_for message) bytes ≡ context_for (message ++ bytes)
unfolding context_for context_of
sha256_update-context_for message bytes =
    let ctx = context_for message in
    let size = buflen-context_for message in
    let below : buflen ctx < 64 = omega arith in
    let sizes = length-append message bytes in
    let left = absorb (length message) first_state message in
    let all =
      absorb-append (length message) (length (message ++ bytes)) (length (left.1 ++ bytes))
        first_state message bytes left (omega arith) (omega arith) refl (omega arith) in
    let count : u64 (u64 (length message) + length bytes) ≡ u64 (length (message ++ bytes)) =
      omega arith in
    sha256_update-joined ctx bytes below
    ∙ ap (λ n. context_of n (absorb (length (left.1 ++ bytes)) left.0 (left.1 ++ bytes))) count
    ∙ ap (context_of (u64 (length (message ++ bytes)))) (sym all)

abbrev pub concat : List (List ℕ) → List ℕ
concat [] = []
concat (x ∷ xs) = x ++ concat xs

-- A sequence of updates.
abbrev pub sha256_updates : Context → List (List ℕ) → Context
sha256_updates ctx [] = ctx
sha256_updates ctx (x ∷ chunks) = sha256_updates (sha256_update ctx x) chunks

updates_lem :
    (message : List ℕ) (chunks : List (List ℕ))
    → sha256_updates (context_for message) chunks ≡ context_for (message ++ concat chunks)
updates_lem message [] = ap context_for (sym (append_nil message))
updates_lem message (x ∷ chunks) =
    ap (λ ctx. sha256_updates ctx chunks) (sha256_update-context_for message x)
    ∙ updates_lem (message ++ x) chunks
    ∙ ap context_for (append_assoc message x (concat chunks))

pub empty_context : sha256_init ≡ context_for []
unfolding context_for absorb
empty_context = refl

pub sha256_updates-context_for :
    (chunks : List (List ℕ)) → sha256_updates sha256_init chunks ≡ context_for (concat chunks)
sha256_updates-context_for chunks =
    ap (λ ctx. sha256_updates ctx chunks) empty_context ∙ updates_lem [] chunks
