-- ===== src/Accounts/RoundTrip.antt =====
-- The front end's reader gives back every field of an account that is laid out as documented.
use mathlib.Core.List.{append_assoc}
use winny.Base.{
  ℕ, ◌+◌, ◌*◌, ◌≡◌, refl, sym, ap, ◌∙◌, some, List, [], ◌∷◌, ◌++◌, map, length, length-append, All,
  get_elem?, arith,
}
use winny.Bytes.{Buffer, subarray, get_uint, get_big_int64}
use winny.Bytes.Words.{length-le_bytes}
use winny.Bytes.Slices.{
  concat, split_at, subarray-append, subarray-concat, get_uint-concat, get_elem?-concat,
}
use winny.Accounts.Layout.{
  of_signed64, of_signed64-lt, to_signed64-of_signed64, FitsSigned64, RoundAccount, IsSized,
  segments, encode,
}
use winny.Base.Int.{ℤ}
use winny.Accounts.Web.{RoundData, disc, participants_from, parse_round}

get_big_int64-of_signed64 :
    (d : Buffer) (offset : ℕ) (z : ℤ)
    → FitsSigned64 z
    → get_uint 8 d offset ≡ some (of_signed64 z)
    → get_big_int64 d offset ≡ some z
unfolding get_big_int64
get_big_int64-of_signed64 d offset z fits e = rw e (ap some (to_signed64-of_signed64 z fits))

length-concat_keys :
    (keys : List Buffer)
    → All (λ (key : Buffer). length key ≡ 32) keys
    → length (concat keys) ≡ length keys * 32
length-concat_keys [] h = refl
length-concat_keys (key ∷ keys) (p, h) =
    omega (arith, length-append key (concat keys), length-concat_keys keys h)

module _ {Key : Type 0} (public_key : Buffer → Key) where
  -- The loop over the table of keys, from the `i`-th key on.
  participants_from-concat :
      (keys : List Buffer) (d before after : Buffer) (i : ℕ)
      → All (λ (key : Buffer). length key ≡ 32) keys
      → d ≡ before ++ (concat keys ++ after)
      → length before ≡ disc + 168 + i * 32
      → participants_from public_key d i (length keys) ≡ map public_key keys
  unfolding participants_from
  participants_from-concat [] d before after i h same e = refl
  participants_from-concat (key ∷ keys) d before after i (p, h) same e =
      let same' : d ≡ before ++ (key ++ (concat keys ++ after)) =
        same ∙ ap (λ t. before ++ t) (append_assoc key (concat keys) after) in
      let here : subarray d (disc + 168 + i * 32) (disc + 168 + i * 32 + 32) ≡ key =
        ap (λ t. subarray t (disc + 168 + i * 32) (disc + 168 + i * 32 + 32)) same'
        ∙ subarray-append before key (concat keys ++ after) (disc + 168 + i * 32)
            (disc + 168 + i * 32 + 32) (omega arith) (omega arith) in
      let later =
        participants_from-concat keys d (before ++ key) after (i + 1) h
          (same' ∙ sym (append_assoc before key (concat keys ++ after)))
          (omega (arith, length-append before key)) in
      rw here (ap (λ t. public_key key ∷ t) later)

module _ (r : RoundAccount) (sized : IsSized r) where
  table_size : length (concat r.participants) ≡ length r.participants * 32
  table_size = length-concat_keys r.participants sized.participants

  read-round_id : get_uint 8 (encode r) 8 ≡ some r.round_id
  read-round_id =
      get_uint-concat (segments r) 1 8 r.round_id 8 sized.round_id refl
        (omega (arith, length-le_bytes))

  read-status : get_elem? (encode r) 16 ≡ some r.status
  read-status = get_elem?-concat (segments r) 2 r.status 16 refl (omega (arith, length-le_bytes))

  read-bump : get_elem? (encode r) 17 ≡ some r.bump
  read-bump = get_elem?-concat (segments r) 3 r.bump 17 refl (omega (arith, length-le_bytes))

  read-start_ts : get_big_int64 (encode r) 24 ≡ some r.start_ts
  read-start_ts = get_big_int64-of_signed64 (encode r) 24 r.start_ts sized.start_ts (
      get_uint-concat (segments r) 5 8 (of_signed64 r.start_ts) 24
        (of_signed64-lt r.start_ts sized.start_ts) refl (omega (arith, length-le_bytes)))

  read-end_ts : get_big_int64 (encode r) 32 ≡ some r.end_ts
  read-end_ts = get_big_int64-of_signed64 (encode r) 32 r.end_ts sized.end_ts (
      get_uint-concat (segments r) 6 8 (of_signed64 r.end_ts) 32
        (of_signed64-lt r.end_ts sized.end_ts) refl (omega (arith, length-le_bytes)))

  read-first_deposit_ts : get_big_int64 (encode r) 40 ≡ some r.first_deposit_ts
  read-first_deposit_ts =
      get_big_int64-of_signed64 (encode r) 40 r.first_deposit_ts sized.first_deposit_ts (
        get_uint-concat (segments r) 7 8 (of_signed64 r.first_deposit_ts) 40
          (of_signed64-lt r.first_deposit_ts sized.first_deposit_ts) refl
          (omega (arith, length-le_bytes)))

  read-vault_usdc_ata : subarray (encode r) 48 80 ≡ r.vault_usdc_ata
  read-vault_usdc_ata =
      subarray-concat (segments r) 8 r.vault_usdc_ata 48 80 refl (omega (arith, length-le_bytes))
        (omega arith)

  read-total_usdc : get_uint 8 (encode r) 80 ≡ some r.total_usdc
  read-total_usdc =
      get_uint-concat (segments r) 9 8 r.total_usdc 80 sized.total_usdc refl
        (omega (arith, length-le_bytes))

  read-total_tickets : get_uint 8 (encode r) 88 ≡ some r.total_tickets
  read-total_tickets =
      get_uint-concat (segments r) 10 8 r.total_tickets 88 sized.total_tickets refl
        (omega (arith, length-le_bytes))

  read-participants_count : get_uint 2 (encode r) 96 ≡ some (length r.participants)
  read-participants_count =
      get_uint-concat (segments r) 11 2 (length r.participants) 96 (omega (arith, table_size)) refl
        (omega (arith, length-le_bytes))

  read-randomness : subarray (encode r) 104 136 ≡ r.randomness
  read-randomness =
      subarray-concat (segments r) 13 r.randomness 104 136 refl (omega (arith, length-le_bytes))
        (omega arith)

  read-winning_ticket : get_uint 8 (encode r) 136 ≡ some r.winning_ticket
  read-winning_ticket =
      get_uint-concat (segments r) 14 8 r.winning_ticket 136 sized.winning_ticket refl
        (omega (arith, length-le_bytes))

  read-winner : subarray (encode r) 144 176 ≡ r.winner
  read-winner =
      subarray-concat (segments r) 15 r.winner 144 176 refl (omega (arith, length-le_bytes))
        (omega arith)

  read-vrf_payer : subarray (encode r) 8184 8216 ≡ r.vrf_payer
  read-vrf_payer =
      subarray-concat (segments r) 19 r.vrf_payer 8184 8216 refl (omega (arith, length-le_bytes))
        (omega arith)

  read-vrf_reimbursed : get_elem? (encode r) 8216 ≡ some r.vrf_reimbursed
  read-vrf_reimbursed =
      get_elem?-concat (segments r) 20 r.vrf_reimbursed 8216 refl (omega (arith, length-le_bytes))

  read-degen_mode_status : get_elem? (encode r) 8217 ≡ some r.degen_mode_status
  read-degen_mode_status =
      get_elem?-concat (segments r) 21 r.degen_mode_status 8217 refl
        (omega (arith, length-le_bytes))

  module _ {Key : Type 0} (public_key : Buffer → Key) where
    read-participants :
        participants_from public_key (encode r) 0 (length r.participants)
        ≡ map public_key r.participants
    read-participants =
        let (before, after, same, at) = split_at (segments r) 16 (concat r.participants) refl in
        participants_from-concat public_key r.participants (encode r) before after 0
          sized.participants same (omega (arith, length-le_bytes))

    -- What the account says, field by field.
    abbrev pub contents : RoundData Key
    contents = record {
      round_id = r.round_id;
      status = r.status;
      degen_mode_status = some r.degen_mode_status;
      bump = r.bump;
      start_ts = r.start_ts;
      end_ts = r.end_ts;
      first_deposit_ts = r.first_deposit_ts;
      vault_usdc_ata = public_key r.vault_usdc_ata;
      total_usdc = r.total_usdc;
      total_tickets = r.total_tickets;
      participants_count = length r.participants;
      randomness = r.randomness;
      winning_ticket = r.winning_ticket;
      winner = public_key r.winner;
      participants = map public_key r.participants;
      vrf_payer = public_key r.vrf_payer;
      vrf_reimbursed = some r.vrf_reimbursed;
    }

    -- An account that is laid out as the table says is read without loss: each integer, time, key
    -- and status byte, and as many participants as were written.
    pub parse_round-encode : parse_round public_key (encode r) ≡ some contents
    unfolding parse_round
    parse_round-encode = rw (
      read-round_id, read-status, read-bump, read-start_ts, read-end_ts, read-first_deposit_ts,
      read-total_usdc, read-total_tickets, read-participants_count, read-winning_ticket,
      read-vault_usdc_ata, read-randomness, read-winner, read-participants, read-vrf_payer,
      read-degen_mode_status, read-vrf_reimbursed,
    )
