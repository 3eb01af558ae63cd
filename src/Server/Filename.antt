-- ===== src/Server/Filename.antt =====
-- The FILENAME PDU from `sendFilenameState` of rcopy.c to `parseFilenamePacket` of server.c.
use cpe_464_proj.Base.{
  ℕ, zero, suc, ◌+◌, ◌*◌, ◌/◌, ◌%◌, ◌^◌, ◌≤◌, ◌<◌, ◌≡◌, ◌≢◌, refl, ap, ◌∙◌, List, [], ◌∷◌, ◌++◌,
  some, false, arith, length, length-append, All, ltb, u32_mod, htonl_bytes, append_assoc,
}
use cpe_464_proj.Checksum.Interface.{IsByte}
use cpe_464_proj.Pdu.{layout, flag_filename}
use cpe_464_proj.Pdu.Codec.{pdu_for, create_pdu-some}
use cpe_464_proj.Client.{RcopyInfo}
use cpe_464_proj.Rcopy.{send_filename_state}
use cpe_464_proj.Server.{Request, strncpy, parse_filename_packet}

-- A C string: it has no NUL inside.
abbrev pub IsText : List ℕ → Type 0
IsText chars = All (λ c. c ≢ 0) chars

-- `strncpy` copies a string that fits up to its NUL.
strncpy-text :
    (n : ℕ) (chars rest : List ℕ)
    → IsText chars
    → length chars ≤ n
    → strncpy n (chars ++ (0 ∷ rest)) ≡ chars
unfolding strncpy
strncpy-text zero [] rest t h = refl
strncpy-text zero (c ∷ chars) rest t h = absurd (omega arith)
strncpy-text (suc n) [] rest t h = refl
strncpy-text (suc n) (c ∷ chars) rest t h = ground (arith, strncpy-text n chars rest t.1, t.0)

-- No name is longer than the field `toFile[101]` allows, whatever bytes come in.
pub length-strncpy : (n : ℕ) (chars : List ℕ) → length (strncpy n chars) ≤ n
unfolding strncpy
length-strncpy zero chars = omega arith
length-strncpy (suc n) [] = omega arith
length-strncpy (suc n) (c ∷ chars) = ground (arith, length-strncpy n chars)

-- The payload that `sendFilenameState` builds.
abbrev pub filename_payload : RcopyInfo → List ℕ
filename_payload info =
    htonl_bytes info.window.window_size
    ++ (htonl_bytes info.buffer_size ++ (info.to_file ++ (0 ∷ [])))

request : ℕ → ℕ → List ℕ → Request
request w b name = record { window_size = w; buffer_size = b; to_file = name }

-- What `parseFilenamePacket` reads from the laid-out PDU.
parse-layout :
    (seq s w b : ℕ) (name stale : List ℕ)
    → w < u32_mod
    → b < u32_mod
    → IsText name
    → length name ≤ 100
    → let pdu =
        layout seq s flag_filename (htonl_bytes w ++ (htonl_bytes b ++ (name ++ (0 ∷ [])))) in
      parse_filename_packet (record { pdu = pdu ++ stale; pdu_len = length pdu })
      ≡ some (request w b name)
unfolding parse_filename_packet request
parse-layout seq s w b name stale hw hb text fits = rw big (λ i. some (record {
  window_size = sizes.0 i;
  buffer_size = sizes.1 i;
  to_file =
      (ap (strncpy 100) (append_assoc name (0 ∷ []) stale) ∙ strncpy-text 100 name stale text fits)
        i;
}))
  where
    pdu : List ℕ
    pdu = layout seq s flag_filename (htonl_bytes w ++ (htonl_bytes b ++ (name ++ (0 ∷ []))))

    big : ltb (length pdu) 16 ≡ false
    big = ground (arith, length-append name (0 ∷ []))

    sizes :
        (w / 2 ^ 24 % 256 * 2 ^ 24 + w / 2 ^ 16 % 256 * 2 ^ 16 + w / 2 ^ 8 % 256 * 2 ^ 8 + w % 256
          ≡ w)
        × (b / 2 ^ 24 % 256 * 2 ^ 24 + b / 2 ^ 16 % 256 * 2 ^ 16 + b / 2 ^ 8 % 256 * 2 ^ 8 + b % 256
            ≡ b)
    sizes = (omega arith, omega arith)

-- What the client may ask for: 32-bit sizes and a file name of at most 100 bytes.
pub record CanAsk (info : RcopyInfo) : Type 0 where
  pub window_fits : info.window.window_size < u32_mod
  pub buffer_fits : info.buffer_size < u32_mod
  pub name_text : IsText info.to_file
  pub name_bytes : All IsByte info.to_file
  pub name_fits : length info.to_file ≤ 100
  pub seq_fits : info.control_seq_num < u32_mod

module _ (in_cksum : List ℕ → ℕ → ℕ) where
  -- The server reads from the client's FILENAME PDU the window size, the buffer size and the file
  -- name of the client, for 32-bit values and a name of at most 100 bytes without NUL, whatever
  -- bytes lie behind the PDU in the receiving array.
  pub filename_roundtrip :
      (info : RcopyInfo) (stale : List ℕ)
      → CanAsk info
      → (pdu : List ℕ) × ((send_filename_state in_cksum info).1.sent ≡ some pdu ∷ info.sent)
        × (parse_filename_packet (record { pdu = pdu ++ stale; pdu_len = length pdu })
            ≡ some (record {
              window_size = info.window.window_size;
              buffer_size = info.buffer_size;
              to_file = info.to_file;
            }))
  unfolding send_filename_state request
  filename_roundtrip info stale c = (
    pdu_for in_cksum info.control_seq_num flag_filename (filename_payload info),
    ap (λ x. x ∷ info.sent)
        (create_pdu-some in_cksum info.control_seq_num flag_filename (filename_payload info)
          (omega (arith, c.name_fits, length-append info.to_file (0 ∷ [])))),
    parse-layout info.control_seq_num _ info.window.window_size info.buffer_size info.to_file stale
        c.window_fits c.buffer_fits c.name_text c.name_fits,
  )
