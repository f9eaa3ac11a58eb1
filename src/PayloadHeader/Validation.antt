-- ===== src/PayloadHeader/Validation.antt =====
-- `validate_st2110_20_payload_header` against the rules of ST 2110-20 that it stands for.
use st2110_obs_plugin.Base.{◌+◌, ◌*◌, ◌<◌, ◌≡◌, ◌⊎◌, ◌↔◌, inl, inr, true, false, arith, no_error}
use st2110_obs_plugin.PayloadHeader.{
  SrdHeader, St2110PayloadHeaderView, srd_at, validate_st2110_20_payload_header,
}

-- One SRD header lies before the next in the picture: on an earlier row, or further left on one row.
abbrev pub Before : SrdHeader → SrdHeader → Type 0
Before a b = (a.row_number < b.row_number) ⊎ ((a.row_number ≡ b.row_number) × (a.offset < b.offset))

abbrev pub Continues : SrdHeader → Type 0
Continues a = (0 < a.length_bytes) × (a.continuation ≡ true)

abbrev pub Ends : SrdHeader → Type 0
Ends a = (0 < a.length_bytes) × (a.continuation ≡ false)

-- One to three SRD headers, the last marked as such, of which several are in picture order and none
-- is empty; a single one may be empty.
abbrev pub IsWellFormed : St2110PayloadHeaderView → Type 0
IsWellFormed h =
    (h.header_bytes ≡ 2 + 6 * h.srd_count)
    × (((h.srd_count ≡ 1) × ((srd_at h.srd 0).continuation ≡ false))
        ⊎ ((h.srd_count ≡ 2)
            × Continues (srd_at h.srd 0)
            × Ends (srd_at h.srd 1)
            × Before (srd_at h.srd 0) (srd_at h.srd 1))
        ⊎ ((h.srd_count ≡ 3)
            × Continues (srd_at h.srd 0)
            × Continues (srd_at h.srd 1)
            × Ends (srd_at h.srd 2)
            × Before (srd_at h.srd 0) (srd_at h.srd 1)
            × Before (srd_at h.srd 1) (srd_at h.srd 2)))

sound :
    (h : St2110PayloadHeaderView) → validate_st2110_20_payload_header h ≡ no_error → IsWellFormed h
unfolding validate_st2110_20_payload_header
sound h e = ground arith

complete_one :
    (h : St2110PayloadHeaderView)
    → h.header_bytes ≡ 2 + 6 * h.srd_count
    → h.srd_count ≡ 1
    → (srd_at h.srd 0).continuation ≡ false
    → validate_st2110_20_payload_header h ≡ no_error
unfolding validate_st2110_20_payload_header
complete_one h s n c = ground arith

complete_two :
    (h : St2110PayloadHeaderView)
    → h.header_bytes ≡ 2 + 6 * h.srd_count
    → h.srd_count ≡ 2
    → Continues (srd_at h.srd 0)
    → Ends (srd_at h.srd 1)
    → Before (srd_at h.srd 0) (srd_at h.srd 1)
    → validate_st2110_20_payload_header h ≡ no_error
unfolding validate_st2110_20_payload_header
complete_two h s n a b o = ground arith

complete_three :
    (h : St2110PayloadHeaderView)
    → h.header_bytes ≡ 2 + 6 * h.srd_count
    → h.srd_count ≡ 3
    → Continues (srd_at h.srd 0)
    → Continues (srd_at h.srd 1)
    → Ends (srd_at h.srd 2)
    → Before (srd_at h.srd 0) (srd_at h.srd 1)
    → Before (srd_at h.srd 1) (srd_at h.srd 2)
    → validate_st2110_20_payload_header h ≡ no_error
unfolding validate_st2110_20_payload_header
complete_three h s n a b c o q = ground arith

complete :
    (h : St2110PayloadHeaderView) → IsWellFormed h → validate_st2110_20_payload_header h ≡ no_error
complete h (s, inl (n, c)) = complete_one h s n c
complete h (s, inr (inl (n, a, b, o))) = complete_two h s n a b o
complete h (s, inr (inr (n, a, b, c, o, q))) = complete_three h s n a b c o q

-- The validation accepts exactly the headers of one to three SRD headers whose last one alone ends
-- the chain and whose size is two bytes and six for each, where several are none of them empty and
-- strictly follow one another in the picture. A single SRD header may be empty.
pub validate_st2110_20_payload_header_iff :
    (h : St2110PayloadHeaderView)
    → (validate_st2110_20_payload_header h ≡ no_error) ↔ IsWellFormed h
validate_st2110_20_payload_header_iff h = (sound h, complete h)
