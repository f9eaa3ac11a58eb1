-- ===== src/PayloadHeader/RoundTrip.antt =====
-- The wire format of the ST 2110-20 payload header, and that the parser reads it.
use st2110_obs_plugin.Base.{
  ℕ, ◌+◌, ◌*◌, ◌/◌, ◌%◌, ◌^◌, ◌≤◌, ◌<◌, ◌≡◌, Bool, true, false, List, [], ◌∷◌, ◌++◌, length, set,
  arith, ok, get_or-append_right, All,
}
use st2110_obs_plugin.Foundation.{read_be16}
use st2110_obs_plugin.PayloadHeader.{
  SrdHeader, no_srd, St2110PayloadHeaderView, read_srd, parse_st2110_20_payload_header,
}

pub record IsSrd (h : SrdHeader) : Type 0 where
  pub length_width : h.length_bytes < 2 ^ 16
  pub row_width : h.row_number < 2 ^ 15
  pub offset_width : h.offset < 2 ^ 15

abbrev flag : Bool → ℕ
flag true = 2 ^ 15
flag false = 0

abbrev be16 : ℕ → List ℕ → List ℕ
be16 n rest = n / 256 ∷ n % 256 ∷ rest

abbrev srd_bytes : SrdHeader → List ℕ → List ℕ
srd_bytes h rest =
    be16 h.length_bytes
      (be16 (flag h.field_id + h.row_number) (be16 (flag h.continuation + h.offset) rest))

read_srd_lem :
    (pre : List ℕ) (h : SrdHeader) (rest : List ℕ)
    → IsSrd h
    → read_srd (pre ++ srd_bytes h rest) (length pre) ≡ h
unfolding read_srd read_be16
read_srd_lem pre h rest v = ground (
  arith,
  get_or-append_right pre (srd_bytes h rest) 0 0,
  get_or-append_right pre (srd_bytes h rest) 1 0,
  get_or-append_right pre (srd_bytes h rest) 2 0,
  get_or-append_right pre (srd_bytes h rest) 3 0,
  get_or-append_right pre (srd_bytes h rest) 4 0,
  get_or-append_right pre (srd_bytes h rest) 5 0,
)

abbrev srds_bytes : List SrdHeader → List ℕ → List ℕ
srds_bytes [] rest = rest
srds_bytes (h ∷ hs) rest = srd_bytes h (srds_bytes hs rest)

-- The array as the loop leaves it: the headers written from index `i` on.
abbrev fill : List SrdHeader → ℕ → List SrdHeader → List SrdHeader
fill srd i [] = srd
fill srd i (h ∷ hs) = fill (set srd i h) (i + 1) hs

-- All but the last header are marked as continued.
abbrev Chained : List SrdHeader → Type 0
Chained [] = Unit
Chained (h ∷ []) = h.continuation ≡ false
Chained (h ∷ g ∷ hs) = (h.continuation ≡ true) × Chained (g ∷ hs)

-- ext_seq, header fields
abbrev pub encode : ℕ → List SrdHeader → List ℕ → List ℕ
encode ext hs content = be16 ext (srds_bytes hs content)

abbrev pub parsed : ℕ → List SrdHeader → St2110PayloadHeaderView
parsed ext hs = record {
  ext_seq = ext;
  srd = fill (no_srd ∷ no_srd ∷ no_srd ∷ []) 0 hs;
  srd_count = length hs;
  header_bytes = 2 + 6 * length hs;
}

read_first :
    (ext : ℕ) (a : SrdHeader) (rest : List ℕ)
    → IsSrd a
    → read_srd (be16 ext (srd_bytes a rest)) 2 ≡ a
read_first ext a rest v = read_srd_lem (be16 ext []) a rest v

read_second :
    (ext : ℕ) (a b : SrdHeader) (rest : List ℕ)
    → IsSrd b
    → read_srd (be16 ext (srd_bytes a (srd_bytes b rest))) 8 ≡ b
read_second ext a b rest v = read_srd_lem (be16 ext (srd_bytes a [])) b rest v

read_third :
    (ext : ℕ) (a b c : SrdHeader) (rest : List ℕ)
    → IsSrd c
    → read_srd (be16 ext (srd_bytes a (srd_bytes b (srd_bytes c rest)))) 14 ≡ c
read_third ext a b c rest v = read_srd_lem (be16 ext (srd_bytes a (srd_bytes b []))) c rest v

-- A payload that starts with an extended sequence number and one to three SRD headers, of which
-- all but the last are marked as continued, is parsed to these, whatever follows.
pub parse_st2110_20_payload_header-encode :
    (ext : ℕ) (hs : List SrdHeader) (content : List ℕ)
    → ext < 2 ^ 16
    → All IsSrd hs
    → Chained hs
    → 0 < length hs
    → length hs ≤ 3
    → parse_st2110_20_payload_header (encode ext hs content) ≡ ok (parsed ext hs)
unfolding parse_st2110_20_payload_header read_be16
parse_st2110_20_payload_header-encode ext [] content w v c p q = absurd (omega arith)
parse_st2110_20_payload_header-encode ext (a ∷ []) content w v c p q =
    ground (arith, read_first ext a content v.0)
parse_st2110_20_payload_header-encode ext (a ∷ b ∷ []) content w v c p q =
    ground (arith, read_first ext a (srd_bytes b content) v.0, read_second ext a b content v.1.0)
parse_st2110_20_payload_header-encode ext (a ∷ b ∷ d ∷ []) content w v c p q = ground (
  arith,
  read_first ext a (srd_bytes b (srd_bytes d content)) v.0,
  read_second ext a b (srd_bytes d content) v.1.0,
  read_third ext a b d content v.1.1.0,
)
parse_st2110_20_payload_header-encode ext (a ∷ b ∷ d ∷ e ∷ hs) content w v c p q =
    absurd (omega arith)
