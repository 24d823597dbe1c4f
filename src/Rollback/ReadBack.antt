-- ===== src/Rollback/ReadBack.antt =====
-- The CRC of the staged image as the firmware reads it back.
use steelseries_apex_pro_min.Prelude.{
  ℕ, zero, suc, ◌+◌, ◌-◌, ◌*◌, ◌^◌, ◌≤◌, ◌<◌, ◌≡◌, min, leb, List, arith, ap, sym, ◌∙◌,
}
use steelseries_apex_pro_min.Crc.{crc32_step}
use steelseries_apex_pro_min.Flash.{Io, read}
use steelseries_apex_pro_min.Flash.Laws.{
  region, IsFaithful, At, Ends, Ends-after, Ends-read, Ends-if, Ends_mono,
}
use steelseries_apex_pro_min.Flash.Stores.{crc32_step-lt, crc32_step-nil, crc32_step-block}
use steelseries_apex_pro_min.Update.{capacity}
use steelseries_apex_pro_min.Promote.{bimg_addr}
use steelseries_apex_pro_min.Rollback.{read_back, chunks}

crc32_step-region_nil :
    (f : ℕ → ℕ) (a n crc : ℕ) → n ≡ 0 → crc < 2 ^ 32 → crc ≡ crc32_step crc (region f a n)
unfolding region
crc32_step-region_nil f a n crc e word = rw e (sym (crc32_step-nil crc word))

module _ {D : Type 0} (io : Io D) (nor_at app_at : D → ℕ → ℕ) (ok_io : IsFaithful io nor_at app_at)
    (nor app : ℕ → ℕ) (bytes : (i : ℕ) → nor i < 256) (b_len : ℕ) (fits : b_len ≤ capacity) where
  abbrev GivesCrc : ℕ → ℕ → D → ℕ → Type 0
  GivesCrc off crc d' c =
      At nor_at app_at nor app d'
      × (c ≡ crc32_step crc (region nor (bimg_addr + off) (b_len - off)))

  GivesCrc-step :
      (off n crc c : ℕ) (d' : D)
      → off + n ≤ b_len
      → crc < 2 ^ 32
      → GivesCrc (off + n) (crc32_step crc (region nor (bimg_addr + off) n)) d' c
      → GivesCrc off crc d' c
  GivesCrc-step off n crc c d' inside word h =
      let whole : n + (b_len - (off + n)) ≡ b_len - off = omega arith in
      let place : bimg_addr + (off + n) ≡ bimg_addr + off + n = omega arith in
      let later = region nor (bimg_addr + (off + n)) (b_len - (off + n)) in
      let first = crc32_step crc (region nor (bimg_addr + off) n) in
      (
        h.0,
        h.1
            ∙ ap (λ a. crc32_step first (region nor a (b_len - (off + n)))) place
            ∙ crc32_step-block nor (bimg_addr + off) n (b_len - (off + n)) crc bytes word
            ∙ ap (λ m. crc32_step crc (region nor (bimg_addr + off) m)) whole,
      )

  pub read_back-Ends :
      (left off crc : ℕ) (d : D)
      → b_len ≤ off + 256 * left
      → crc < 2 ^ 32
      → At nor_at app_at nor app d
      → Ends (read_back io left b_len off crc d) (GivesCrc off crc) (At nor_at app_at nor app)
  unfolding read_back
  read_back-Ends zero off crc d enough word at =
      (at, crc32_step-region_nil nor (bimg_addr + off) (b_len - off) crc (omega arith) word)
  read_back-Ends (suc left) off crc d enough word at =
      let n = min 256 (b_len - off) in
      let a = bimg_addr + off in
      let d1 = (io.nor_read a n d).0 in
      let at1 : At nor_at app_at nor app d1 =
        (ok_io.nor_read_nor a n d ∙ at.0, ok_io.nor_read_app a n d ∙ at.1) in
      let E = At nor_at app_at nor app in
      let Buf = λ (d' : D) (buf : List ℕ). At nor_at app_at nor app d' × (buf ≡ region nor a n) in
      Ends-if (GivesCrc off crc) E (leb b_len off) _ _ d
        (λ past. (at, crc32_step-region_nil nor a (b_len - off) crc (ground arith) word))
        (λ more.
          let below : off < b_len = ground arith in
          Ends-after Buf E (GivesCrc off crc) E (read (io.nor_read a n) d) _
            (Ends-read E Buf (io.nor_read a n) d
              (λ bs e.
                (at1, ok_io.nor_read_gives a n d bs (omega arith) e ∙ ap (λ g. region g a n) at.0))
              at1)
            (λ d' buf h. rw h.1 (
              Ends_mono (GivesCrc (off + n) (crc32_step crc (region nor a n))) E (GivesCrc off crc)
                E _
                (read_back-Ends left (off + n) (crc32_step crc (region nor a n)) d' (omega arith)
                  (crc32_step-lt crc (region nor a n)) h.0)
                (λ d2 c g. GivesCrc-step off n crc c d2 (omega arith) word g) (λ d2 g. g)))
            (λ d' h. h))

  -- The whole image.
  pub read_back-whole :
      (d : D)
      → At nor_at app_at nor app d
      → Ends
          (read_back io (chunks b_len) b_len 0 0 d)
          (λ d' c. At nor_at app_at nor app d' × (c ≡ crc32_step 0 (region nor bimg_addr b_len)))
          (At nor_at app_at nor app)
  read_back-whole d at =
      let e : b_len - 0 ≡ b_len = omega arith in
      Ends_mono (GivesCrc 0 0) (At nor_at app_at nor app) _ (At nor_at app_at nor app) _
        (read_back-Ends (chunks b_len) 0 0 d (omega arith) (omega arith) at)
        (λ d' c h. (h.0, h.1 ∙ ap (λ n. crc32_step 0 (region nor bimg_addr n)) e)) (λ d' h. h)
