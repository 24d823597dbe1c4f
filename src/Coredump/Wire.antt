-- ===== src/Coredump/Wire.antt =====
-- The record as the firmware's scan and the bootloader read it.
use steelseries_apex_pro_min.Prelude.{
  ℕ, ◌*◌, ◌^◌, ◌<◌, ◌≡◌, if◌then◌else◌, Bool, true, false, Option, none, some, List, [], ◌∷◌, ◌++◌,
  length, take, drop, replicate, take-append, drop-append, length-append, read32, read16, write32,
  write16, read32-write32, read16-write16, IsBytes, IsBytes-append, arith, refl, ap, ◌∙◌,
  uint32_max,
}
use steelseries_apex_pro_min.Crc.{crc, crc_loop, complement, crc32_step}
use steelseries_apex_pro_min.Crc.Chain.{crc32_step-append}
use steelseries_apex_pro_min.Promote.Records.{dump_valid}
use steelseries_apex_pro_min.Coredump.{
  Fault, Frame, Callee, words, basic_words, callee_words, extra_of, psp_of, sp_of, stack_readable,
  stack_valid, stack_of, fields, body, fault_record, record_valid, seq_of, coredump_magic,
  coredump_version,
}

-- The copy of the stack has its size, in bytes.
abbrev pub IsReadable : Fault → Type 0
IsReadable f = (sp : ℕ) → (length (f.stack_at sp) ≡ 128) × IsBytes (f.stack_at sp)

IsBytes-zeros : IsBytes (replicate 128 0)
IsBytes-zeros = omega arith

stack_of-IsBytes : (f : Fault) → IsReadable f → (length (stack_of f) ≡ 128) × IsBytes (stack_of f)
unfolding stack_of
stack_of-IsBytes f ok = go (stack_readable (sp_of f.esf))
  where
    go :
        (b : Bool)
        → let l : List ℕ = if b then f.stack_at (sp_of f.esf) else replicate 128 0 in
          (length l ≡ 128) × IsBytes l
    go true = ok (sp_of f.esf)
    go false = (refl, IsBytes-zeros)

IsBytes-write32 : (w : ℕ) → IsBytes (write32 w)
IsBytes-write32 w = omega arith

IsBytes-words : (ws : List ℕ) → IsBytes (words ws)
IsBytes-words [] = tt
IsBytes-words (w ∷ ws) =
    IsBytes-append (write32 w) (words ws) (IsBytes-write32 w) (IsBytes-words ws)

length-words : (ws : List ℕ) → length (words ws) ≡ 4 * length ws
length-words [] = refl
length-words (w ∷ ws) = omega (arith, length-words ws)

length-basic : (e : Option Frame) → length (basic_words e) ≡ 8
length-basic none = refl
length-basic (some f) = refl

length-callee : (c : Option Callee) → length (callee_words c) ≡ 8
length-callee none = refl
length-callee (some c) = refl

module _ (f : Fault) (seq : ℕ) (ok : IsReadable f) where
  body-IsBytes : IsBytes (body f seq)
  unfolding body
  body-IsBytes =
      IsBytes-append (write32 coredump_magic ++ write16 coredump_version ++ write16 seq)
        (words (fields f) ++ stack_of f) (omega arith)
        (IsBytes-append (words (fields f)) (stack_of f) (IsBytes-words (fields f))
          (stack_of-IsBytes f ok).1)

  length-fields : length (fields f) ≡ 27
  unfolding fields
  length-fields =
      let e = extra_of f.esf in
      let sp = sp_of f.esf in
      let rest =
        f.cfsr
        ∷ f.hfsr
        ∷ f.bfar
        ∷ f.mmfar
        ∷ sp
        ∷ e.msp
        ∷ psp_of e.callee
        ∷ e.exc_return
        ∷ stack_valid sp
        ∷ [] in
      omega (
        arith,
        length-append (basic_words f.esf) (callee_words e.callee ++ rest),
        length-append (callee_words e.callee) rest,
        length-basic f.esf,
        length-callee e.callee,
      )

  length-body : length (body f seq) ≡ 244
  unfolding body
  length-body = omega (
    arith,
    length-append (words (fields f)) (stack_of f),
    length-words (fields f),
    length-fields,
    (stack_of-IsBytes f ok).0,
  )

  abbrev sum : ℕ
  sum = crc (body f seq)

  sum-lt : sum < 2 ^ 32
  unfolding crc
  sum-lt = omega arith

  record_parts : fault_record f seq ≡ body f seq ++ write32 sum
  unfolding fault_record crc
  record_parts = refl

  pub length-fault_record : length (fault_record f seq) ≡ 248
  length-fault_record =
      ap length record_parts ∙ length-append (body f seq) (write32 sum) ∙ omega (arith, length-body)

  pub fault_record-IsBytes : IsBytes (fault_record f seq)
  fault_record-IsBytes =
      rw record_parts (IsBytes-append (body f seq) (write32 sum) body-IsBytes (IsBytes-write32 sum))

  take-record : take 244 (fault_record f seq) ≡ body f seq
  take-record = ap (take 244) record_parts ∙ take-append 244 (body f seq) (write32 sum) length-body

  crc-record : read32 (drop 244 (fault_record f seq)) ≡ sum
  crc-record =
      ap (λ l. read32 (drop 244 l)) record_parts
      ∙ ap read32 (drop-append 244 (body f seq) (write32 sum) length-body)
      ∙ read32-write32 sum [] sum-lt

  magic-record : read32 (fault_record f seq) ≡ coredump_magic
  unfolding fault_record body
  magic-record = read32-write32 coredump_magic _ (omega arith)

  version-record : read16 (drop 4 (fault_record f seq)) ≡ coredump_version
  unfolding fault_record body
  version-record = read16-write16 coredump_version _ (omega arith)

  -- The record carries its sequence number.
  pub seq-record : seq < 2 ^ 16 → seq_of (fault_record f seq) ≡ seq
  unfolding fault_record body
  seq-record small = read16-write16 seq _ small

  -- It passes the tests of the scan.
  pub record_valid-record : record_valid (fault_record f seq) ≡ true
  unfolding record_valid crc
  record_valid-record =
      ground
        (arith, magic-record, crc-record, ap (λ l. complement (crc_loop uint32_max l)) take-record)

  -- It passes those of the bootloader too.
  pub dump_valid-record : dump_valid (fault_record f seq) ≡ true
  unfolding dump_valid
  dump_valid-record = ground (
    arith,
    magic-record,
    version-record,
    crc-record,
    ap (crc32_step 0) take-record,
    (crc32_step-append 0 (body f seq) [] (omega arith) body-IsBytes).0,
  )
