-- ===== src/Promote/Report.antt =====
-- `ab_promote_info_append` and `ab_promote_crash_file`: the report that the bootloader shows.
use steelseries_apex_pro_min.Prelude.{
  ℕ, zero, suc, ◌+◌, ◌-◌, ◌*◌, ◌/◌, ◌%◌, ◌==◌, ltb, not, if◌then◌else◌, List, [], ◌∷◌, ◌++◌, length,
  u32, ◌>>>◌,
}
use steelseries_apex_pro_min.Promote.{Build}
use steelseries_apex_pro_min.Update.{capacity}
use Prim.Native.Char.{code}
use Prim.Native.String.{String}
use steelseries_apex_pro_min.Promote.Records.{
  Action, unarmed, waiting, bad_image, current, copy_failed, restored, BootStatus, Status,
  coredump_size,
}

-- `text` is the string up to its NUL, and `pos` its length; characters that do not fit are dropped.
unfoldable pub text_char : ℕ → List ℕ → ℕ → List ℕ
text_char limit text c = if ltb (u32 (length text + 1)) limit then text ++ (c ∷ []) else text

unfoldable pub text_str : ℕ → List ℕ → List ℕ → List ℕ
unfolding text_char
text_str limit text [] = text
text_str limit text (c ∷ cs) = text_str limit (text_char limit text c) cs

-- The array of `text_dec`: at most ten digits, the last first.
unfoldable pub digits_of : ℕ → ℕ → List ℕ
digits_of zero value = []
digits_of (suc left) value =
    let rest = digits_of left (value / 10) in
    (b'0' + value % 10) ∷ (if value / 10 == 0 then [] else rest)

abbrev pub reverse : List ℕ → List ℕ
reverse [] = []
reverse (x ∷ xs) = reverse xs ++ (x ∷ [])

unfoldable pub text_dec : ℕ → List ℕ → ℕ → List ℕ
text_dec limit text value = text_str limit text (reverse (digits_of 10 value))

-- `hex[n]`
abbrev pub hex_digit : ℕ → ℕ
hex_digit n = if ltb n 10 then b'0' + n else b'a' + n - 10

-- The loop over the shifts, from the highest of `left` digits down.
unfoldable pub hex_digits : ℕ → ℕ → List ℕ
hex_digits zero value = []
hex_digits (suc left) value = hex_digit ((value >>> (4 * left)) % 16) ∷ hex_digits left value

unfoldable pub text_hex32 : ℕ → List ℕ → ℕ → List ℕ
text_hex32 limit text value =
    text_str limit (text_str limit text (b'0' ∷ b'x' ∷ [])) (hex_digits 8 value)

-- The characters of a literal, without its NUL.
abbrev pub codes : String → List ℕ
codes String.[] = []
codes (String.◌∷◌ c rest) = code c ∷ codes rest

abbrev pub crlf : List ℕ
crlf = 13 ∷ 10 ∷ []

-- `action_names`
abbrev pub action_name : Action → List ℕ
action_name unarmed = codes "not armed"
action_name waiting = codes "waiting"
action_name bad_image = codes "staged image invalid"
action_name current = codes "recovery image already running"
action_name copy_failed = codes "restore interrupted"
action_name restored = codes "restored"

-- `ab_promote_info_append`
module _ (limit : ℕ) (b : BootStatus) where
  abbrev str : List ℕ → List ℕ → List ℕ
  str piece text = text_str limit text piece

  -- The failed boots and the image, when a descriptor was read.
  unfoldable pub append_image : List ℕ → List ℕ
  append_image text =
      let text1 = str (codes ", failed boots ") text in
      let text2 =
        if b.tally_readable then text_dec limit text1 b.failures else str (codes "unknown") text1 in
      let text3 = text_dec limit (text_char limit text2 b'/') b.threshold in
      str (codes " bytes") (text_dec limit (str (codes ", image ") text3) b.image_len)

  unfoldable pub append_crash : List ℕ → List ℕ
  append_crash text =
      let text1 = text_dec limit (str (codes "sequence ") text) b.crash_seq in
      let text2 = text_hex32 limit (str (codes ", reason ") text1) b.crash_reason in
      str crlf (text_hex32 limit (str (codes ", PC ") text2) b.crash_pc)

  unfoldable pub info_append : Build → List ℕ → List ℕ
  info_append build text =
      let text1 =
        if build.app_maxlen == capacity then str (codes "APEX-BOOT-OTA3" ++ crlf) text else text in
      let text2 = str (codes "Bootloader update: supported" ++ crlf ++ codes "Reset: ") text1 in
      let text3 =
        str (action_name b.action)
          (str (crlf ++ codes "A/B: ") (text_hex32 limit text2 b.resetreas)) in
      let text4 = if not (b.threshold == 0) then append_image text3 else text3 in
      let text5 = str (crlf ++ codes "Crash: ") text4 in
      if not b.crash_present then str (codes "none" ++ crlf) text5 else append_crash text5

-- `ab_promote_crash_file`: the record and its size
abbrev pub crash_file : Status → List ℕ × ℕ
crash_file s = (s.newest_crash, if s.boot.crash_present then coredump_size else 0)
