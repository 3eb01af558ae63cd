-- ===== src/Rcopy/Input.antt =====
-- What the client of rcopy.c reads: each `read` gives at most `bufferSize` bytes.
use cpe_464_proj.Base.{
  ℤ, pos, negsuc, ℕ, ◌≤◌, ◌<◌, ◌≡◌, sym, ap, ap₂, refl, List, [], ◌∷◌, arith, length,
  length-take_bounded, All, u32_mod,
}
use cpe_464_proj.Pdu.{max_data_size}
use cpe_464_proj.Client.{ReadResult, read_error, read_bytes, RcopyInfo}
use cpe_464_proj.Setup.{Args, Answers, init_rcopy_info, started}
use cpe_464_proj.Rcopy.Start.{IsStarted, init_rcopy_info-IsStarted}
use cpe_464_proj.Rcopy.Chunks.{Fits, reads_within, readable}

-- The buffer size of a command line.
abbrev pub to_count : ℤ → ℕ
to_count (pos n) = n
to_count (negsuc n) = 0

-- What the reads of a client give that is started with these arguments.
abbrev pub input_of : Args → Answers → List ReadResult
input_of a answers = reads_within (to_count a.buffer_size) answers.reads

length-reads_within :
    (count : ℕ) (rs : List ReadResult) → length (reads_within count rs) ≡ length rs
length-reads_within count [] = refl
length-reads_within count (r ∷ rs) = omega (arith, length-reads_within count rs)

pub length-input_of :
    (a : Args) (answers : Answers) → length (input_of a answers) ≡ length answers.reads
length-input_of a answers = length-reads_within (to_count a.buffer_size) answers.reads

reads_within-Fits :
    (count : ℕ) (rs : List ReadResult) → count ≤ max_data_size → All Fits (reads_within count rs)
reads_within-Fits count [] small = tt
reads_within-Fits count (read_error ∷ rs) small = (omega arith, reads_within-Fits count rs small)
reads_within-Fits count (read_bytes bytes ∷ rs) small =
    (omega (arith, length-take_bounded count bytes), reads_within-Fits count rs small)

pub readable-input_of :
    {a : Args} {answers : Answers} {info : RcopyInfo}
    → IsStarted a answers info
    → readable info ≡ input_of a answers
readable-input_of {a} {answers} {info} s =
    ap₂ reads_within (sym (ap to_count s.buffer_size_given)) s.reads_given

pub few_of :
    (a : Args) (answers : Answers)
    → length answers.reads < u32_mod
    → length (input_of a answers) < u32_mod
few_of a answers small = omega (arith, small, length-input_of a answers)

pub input_of-Fits :
    (a : Args) (answers : Answers) (info : RcopyInfo)
    → init_rcopy_info a answers ≡ started info
    → All Fits (input_of a answers)
input_of-Fits a answers info e =
    let s = init_rcopy_info-IsStarted a answers info e in
    reads_within-Fits (to_count a.buffer_size) answers.reads
      (omega (arith, ap to_count s.buffer_size_given, s.buffer_fits))
