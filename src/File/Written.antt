-- ===== src/File/Written.antt =====
-- What isp_buff_to_file leaves in the file.
use lpctools.Base.{
  ℕ, zero, suc, lt→ltb, ◌^◌, ◌≤◌, ◌<◌, ◌≡◌, refl, sym, ap, ◌∙◌, arith, List, [], ◌∷◌, true, not,
  ◌&&◌, Option, none, some, length, length-bytes, ℤ, pos, negsuc, to_int, eq_ℤ, Mem, bytes, ltb,
  take, inl, inr, Bool-cases, if◌then◌else◌,
}
use lpctools.File.{Feed, Sink, file_write, is_stdout, buff_to_file, file_to_buff}
use lpctools.File.Contents.{IsSound, contents, file_to_buff-contents}

-- The file can be opened, and takes `len` bytes.
pub record IsWhole (sink : Sink) (len : ℕ) : Type 0 where
  pub opens : sink.opens ≡ true
  pub room : ℕ
  pub roomy : sink.room ≡ some room
  pub enough : len ≤ room

eq_ℤ_same : (x : ℤ) → eq_ℤ x x ≡ true
eq_ℤ_same (pos n) = ground arith
eq_ℤ_same (negsuc n) = ground arith

pub buff_to_file-whole :
    (data_at : Mem) (len : ℕ) (filename : List ℕ) (sink : Sink)
    → IsWhole sink len
    → buff_to_file data_at len filename sink ≡ (to_int len, some (bytes data_at 0 len))
unfolding buff_to_file
buff_to_file-whole data_at len filename sink whole =
    let opened = whole.opens in
    let roomy = whole.roomy in
    let room = whole.room in
    let all : (if ltb len room then len else room) ≡ len = ground (arith, whole.enough) in
    rw (opened, roomy, all, eq_ℤ_same (to_int len), buff_to_file) (ground arith)

file_write-all :
    (data_at : Mem) (len : ℕ) (room : Option ℕ)
    → len < 2 ^ 31
    → eq_ℤ (file_write room data_at len).0 (to_int len) ≡ true
    → (file_write room data_at len).1 ≡ bytes data_at 0 len
file_write-all data_at len none small same = absurd (ground arith)
file_write-all data_at len (some room) small same =
    ap (λ k. bytes data_at 0 k) {y = len} (ground arith)

-- A result that is the length says that all the bytes were written.
buff_to_file-all :
    (data_at : Mem) (len : ℕ) (filename bs : List ℕ) (sink : Sink)
    → len < 2 ^ 31
    → buff_to_file data_at len filename sink ≡ (pos len, some bs)
    → bs ≡ bytes data_at 0 len
unfolding buff_to_file
buff_to_file-all data_at len filename bs sink small h =
    let written = file_write sink.room data_at len in
    elim (Bool-cases (not (is_stdout filename) && not sink.opens)) [
      | inl shut ↦ absurd (fails (ap (λ r. r.0) (rw shut at h)))
      | inr opened ↦ elim (Bool-cases (eq_ℤ written.0 (to_int len))) [
        | inr short ↦ absurd (fails (ap (λ r. r.0) (rw (opened, short) at h)))
        | inl all ↦
            sym (some_inj (ap (λ r. r.1) (rw (opened, all) at h)))
            ∙ file_write-all data_at len sink.room small all
      ]
    ]
  where
    fails : {k : ℕ} → negsuc k ≡ pos len → ⊥
    fails e = cc

    some_inj : {xs ys : List ℕ} → some xs ≡ some ys → xs ≡ ys
    some_inj e = cc

take_all : (n : ℕ) (xs : List ℕ) → length xs ≡ n → take n xs ≡ xs
take_all zero [] e = refl
take_all zero (x ∷ xs) e = absurd (omega arith)
take_all (suc n) [] e = refl
take_all (suc n) (x ∷ xs) e = ap (λ (t : List ℕ). x ∷ t) (take_all n xs (omega arith))

-- If isp_buff_to_file of fewer than 2 ^ 31 bytes returned their count, isp_file_to_buff of the file,
-- by reads that do not fail, loads exactly these bytes, whatever the sizes of the chunks.
pub file_to_buff-buff_to_file :
    (data_at : Mem) (len : ℕ) (filename : List ℕ) (sink : Sink) (script : List Feed)
    → len < 2 ^ 31
    → buff_to_file data_at len filename sink ≡ (pos len, some (contents script))
    → IsSound script
    → file_to_buff (some script) len ≡ (pos len, bytes data_at 0 len)
file_to_buff-buff_to_file data_at len filename sink script small written sound =
    let same = buff_to_file-all data_at len filename (contents script) sink small written in
    file_to_buff-contents script len sound
    ∙ rw
        (
          same,
          take_all len (bytes data_at 0 len) (length-bytes data_at 0 len),
          length-bytes data_at 0 len,
          lt→ltb len (2 ^ 31) small,
        )
        refl
