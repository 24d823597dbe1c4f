-- ===== src/Promote/Text.antt =====
-- The report of the bootloader is its whole text, cut off where the buffer ends.
use steelseries_apex_pro_min.Prelude.{
  ℕ, zero, suc, ◌+◌, ◌-◌, ◌^◌, ◌==◌, ◌<◌, ◌≡◌, inl, inr, ltb, not, if◌then◌else◌, Bool, true, false,
  List, [], ◌∷◌, ◌++◌, length, take, length-append, length-take, take-nil, arith, refl, ap, sym,
  ◌∙◌, Bool-cases, u32,
}
use mathlib.Core.List.{append_assoc, append-nil}
use steelseries_apex_pro_min.Update.{capacity}
use steelseries_apex_pro_min.Promote.{Build}
use steelseries_apex_pro_min.Promote.Records.{BootStatus}
use steelseries_apex_pro_min.Promote.Report.{
  codes, crlf, action_name, text_char, text_str, text_dec, text_hex32, digits_of, reverse,
  hex_digits, append_image, append_crash, info_append,
}

-- What a buffer of `limit` characters, the NUL one of them, takes of a text.
pub fit : ℕ → List ℕ → List ℕ → List ℕ
fit limit text s = text ++ take (limit - 1 - length text) s

abbrev pub concat : List (List ℕ) → List ℕ
concat [] = []
concat (s ∷ ss) = s ++ concat ss

abbrev pub decimal : ℕ → List ℕ
decimal value = reverse (digits_of 10 value)

abbrev pub hexadecimal : ℕ → List ℕ
hexadecimal value = (b'0' ∷ b'x' ∷ []) ++ hex_digits 8 value

-- The parts of the report.
pub image_pieces : BootStatus → List (List ℕ)
image_pieces b =
    codes ", failed boots "
    ∷ (if b.tally_readable then decimal b.failures else codes "unknown")
    ∷ (b'/' ∷ [])
    ∷ decimal b.threshold
    ∷ codes ", image "
    ∷ decimal b.image_len
    ∷ codes " bytes"
    ∷ []

pub crash_pieces : BootStatus → List (List ℕ)
crash_pieces b =
    codes "sequence "
    ∷ decimal b.crash_seq
    ∷ codes ", reason "
    ∷ codes "0x"
    ∷ hex_digits 8 b.crash_reason
    ∷ codes ", PC "
    ∷ codes "0x"
    ∷ hex_digits 8 b.crash_pc
    ∷ crlf
    ∷ []

abbrev greeting : BootStatus → List (List ℕ)
greeting b =
    (codes "Bootloader update: supported" ++ crlf ++ codes "Reset: ")
    ∷ codes "0x"
    ∷ hex_digits 8 b.resetreas
    ∷ (crlf ++ codes "A/B: ")
    ∷ action_name b.action
    ∷ []

info_pieces : Build → BootStatus → List (List ℕ)
info_pieces build b =
    (if build.app_maxlen == capacity then (codes "APEX-BOOT-OTA3" ++ crlf) ∷ [] else [])
    ++ greeting b
    ++ (if not (b.threshold == 0) then image_pieces b else [])
    ++ ((crlf ++ codes "Crash: ") ∷ [])
    ++ (if not b.crash_present then (codes "none" ++ crlf) ∷ [] else crash_pieces b)

-- The whole report, with no end of the buffer.
pub report : Build → BootStatus → List ℕ
report build b = concat (info_pieces build b)

module _ (limit : ℕ) (word : limit < 2 ^ 32) where
  length-fit : (text s : List ℕ) → length text < limit → length (fit limit text s) < limit
  unfolding fit
  length-fit text s h = omega (
    arith,
    length-append text (take (limit - 1 - length text) s),
    length-take (limit - 1 - length text) s,
  )

  take-append : (n : ℕ) (s s' : List ℕ) → take n (s ++ s') ≡ take n s ++ take (n - length s) s'
  take-append zero s s' = let e : 0 - length s ≡ 0 = omega arith in rw e refl
  take-append (suc n) [] s' = let e : suc n - 0 ≡ suc n = omega arith in rw e refl
  take-append (suc n) (c ∷ s) s' =
      let e : suc n - suc (length s) ≡ n - length s = omega arith in
      rw e (ap (λ l. c ∷ l) (take-append n s s'))

  fit-fit : (text s s' : List ℕ) → fit limit (fit limit text s) s' ≡ fit limit text (s ++ s')
  unfolding fit
  fit-fit text s s' =
      let n = limit - 1 - length text in
      let left : take (limit - 1 - length (text ++ take n s)) s' ≡ take (n - length s) s' =
        ap (λ k. take k s') (omega (arith, length-append text (take n s), length-take n s)) in
      rw left (
        append_assoc text (take n s) (take (n - length s) s')
        ∙ ap (λ l. text ++ l) (sym (take-append n s s')))

  fit-nil : (text : List ℕ) → text ≡ fit limit text []
  unfolding fit
  fit-nil text = sym (ap (λ l. text ++ l) (take-nil (limit - 1 - length text)) ∙ append-nil text)

  text_char-fit :
      (text : List ℕ) (c : ℕ)
      → length text < limit
      → text_char limit text c ≡ fit limit text (c ∷ [])
  unfolding text_char fit
  text_char-fit text c h = elim (Bool-cases (ltb (u32 (length text + 1)) limit)) [
    | inl room ↦
        let k = limit - 2 - length text in
        let size : limit - 1 - length text ≡ suc k = ground arith in
        rw room (rw size (ap (λ l. text ++ (c ∷ l)) (sym (take-nil k))))
    | inr full ↦
        let size : limit - 1 - length text ≡ 0 = ground arith in
        rw full (rw size (sym (append-nil text)))
  ]

  text_str-fit : (text s : List ℕ) → length text < limit → text_str limit text s ≡ fit limit text s
  unfolding text_str
  text_str-fit text [] h = fit-nil text
  text_str-fit text (c ∷ s) h =
      let one = text_char-fit text c h in
      let room : length (text_char limit text c) < limit = rw one (length-fit text (c ∷ []) h) in
      text_str-fit (text_char limit text c) s room
      ∙ ap (λ t. fit limit t s) one
      ∙ fit-fit text (c ∷ []) s

  -- Texts printed one after the other.
  texts : List ℕ → List (List ℕ) → List ℕ
  texts text [] = text
  texts text (p ∷ ps) = texts (text_str limit text p) ps

  texts-fit :
      (text : List ℕ) (ps : List (List ℕ))
      → length text < limit
      → (texts text ps ≡ fit limit text (concat ps)) × (length (texts text ps) < limit)
  unfolding texts
  texts-fit text [] h = (fit-nil text, h)
  texts-fit text (p ∷ ps) h =
      let one = text_str-fit text p h in
      let ih = texts-fit (text_str limit text p) ps (rw one (length-fit text p h)) in
      (ih.0 ∙ ap (λ t. fit limit t (concat ps)) one ∙ fit-fit text p (concat ps), ih.1)

  module _ (b : BootStatus) where
    append_image-texts : (text : List ℕ) → append_image limit b text ≡ texts text (image_pieces b)
    unfolding append_image texts image_pieces text_dec text_str
    append_image-texts text = elim (Bool-cases b.tally_readable) [
      | inl e ↦ rw e refl
      | inr e ↦ rw e refl
    ]

    append_crash-texts : (text : List ℕ) → append_crash limit b text ≡ texts text (crash_pieces b)
    unfolding append_crash texts crash_pieces text_dec text_hex32
    append_crash-texts text = refl

  texts-append :
      (text : List ℕ) (ps qs : List (List ℕ)) → texts text (ps ++ qs) ≡ texts (texts text ps) qs
  unfolding texts
  texts-append text [] qs = refl
  texts-append text (p ∷ ps) qs = texts-append (text_str limit text p) ps qs

  texts-then :
      (text : List ℕ) (ps qs : List (List ℕ)) (text' text'' : List ℕ)
      → texts text ps ≡ text'
      → texts text' qs ≡ text''
      → texts text (ps ++ qs) ≡ text''
  texts-then text ps qs text' text'' h k = texts-append text ps qs ∙ ap (λ t. texts t qs) h ∙ k

  texts-if :
      (b : Bool) (text text' text'' : List ℕ) (ps qs : List (List ℕ))
      → text' ≡ texts text ps
      → text'' ≡ texts text qs
      → (if b then text' else text'') ≡ texts text (if b then ps else qs)
  texts-if true text text' text'' ps qs h k = h
  texts-if false text text' text'' ps qs h k = k

  info_append-texts :
      (build : Build) (b : BootStatus) (text : List ℕ)
      → info_append limit b build text ≡ texts text (info_pieces build b)
  unfolding info_append texts info_pieces text_hex32
  info_append-texts build b text =
      let update = build.app_maxlen == capacity in
      let armed = not (b.threshold == 0) in
      let quiet = not b.crash_present in
      let marker = (codes "APEX-BOOT-OTA3" ++ crlf) ∷ [] in
      let middle = greeting b in
      let image = if armed then image_pieces b else [] in
      let crash = (crlf ++ codes "Crash: ") ∷ [] in
      let last = if quiet then (codes "none" ++ crlf) ∷ [] else crash_pieces b in
      let text1 = if update then text_str limit text (codes "APEX-BOOT-OTA3" ++ crlf) else text in
      let e1 : text1 ≡ texts text (if update then marker else []) =
        texts-if update text _ text marker [] refl refl in
      let text2 = texts text1 middle in
      let text3 = if armed then append_image limit b text2 else text2 in
      let e3 : text3 ≡ texts text2 image =
        texts-if armed text2 _ text2 (image_pieces b) [] (append_image-texts b text2) refl in
      let text4 = texts text3 crash in
      let e4 : (if quiet
            then text_str limit text4 (codes "none" ++ crlf)
            else append_crash limit b text4)
          ≡ texts text4 last =
        texts-if quiet text4 _ _ ((codes "none" ++ crlf) ∷ []) (crash_pieces b) refl
          (append_crash-texts b text4) in
      let s2 = texts-then text (if update then marker else []) middle text1 text2 (sym e1) refl in
      let s3 =
        texts-then text ((if update then marker else []) ++ middle) image text2 text3 s2 (sym e3) in
      let s4 =
        texts-then text ((if update then marker else []) ++ middle ++ image) crash text3 text4 s3
          refl in
      sym (
        texts-then text ((if update then marker else []) ++ middle ++ image ++ crash) last text4 _
          s4 (sym e4))

  -- For a text shorter than its buffer, of fewer than 2^32 bytes: the report is appended to it as far as
  -- it fits with the NUL, and the text stays shorter than the buffer.
  pub info_append-fit :
      (build : Build) (b : BootStatus) (text : List ℕ)
      → length text < limit
      → (info_append limit b build text ≡ text ++ take (limit - 1 - length text) (report build b))
        × (length (info_append limit b build text) < limit)
  unfolding report fit
  info_append-fit build b text h =
      rw (info_append-texts build b text) (texts-fit text (info_pieces build b) h)
