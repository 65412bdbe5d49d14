-- ===== src/Accounts/Agreement.antt =====
-- The readers of one account agree: the crank's with the front end's, and the short ones of the
-- executor with the full ones.
use mathlib.Core.Option
use winny.Base.{ℕ, zero, suc, ◌+◌, ◌≡◌, refl, Bool, Option, none, some, arith, if◌then◌else◌}
use winny.Bytes.{Buffer, ◌>>=◌}
use winny.Accounts.Crank
use winny.Accounts.Web
use winny.Accounts.Degen.{parse_round_meta, is_zero, parse_round_vrf_payer, parse_config_fee_bps}
use winny.Accounts.Config.{ParsedConfigLike, parse_config}

-- What the crank keeps of a round.
abbrev pub crank_round : {Key : Type 0} → Web.RoundData Key → Crank.RoundData Key
crank_round r = record {
  round_id = r.round_id;
  status = r.status;
  bump = r.bump;
  start_ts = r.start_ts;
  end_ts = r.end_ts;
  first_deposit_ts = r.first_deposit_ts;
  vault_usdc_ata = r.vault_usdc_ata;
  total_usdc = r.total_usdc;
  total_tickets = r.total_tickets;
  participants_count = r.participants_count;
  randomness = r.randomness;
  winning_ticket = r.winning_ticket;
  winner = r.winner;
  participants = r.participants;
  vrf_payer = r.vrf_payer;
}

abbrev pub crank_participant : {Key : Type 0} → Web.ParticipantData Key → Crank.ParticipantData Key
crank_participant p = record {
  round = p.round;
  user = p.user;
  index = p.index;
  bump = p.bump;
  tickets_total = p.tickets_total;
  usdc_total = p.usdc_total;
  deposits_count = p.deposits_count;
}

map-bind :
    {A B C : Type 0} (g : B → C) (m : Option A) (k : A → Option B)
    → Option.map g (m >>= k) ≡ (m >>= λ a. Option.map g (k a))
map-bind g none k = refl
map-bind g (some a) k = refl

module _ {Key : Type 0} (public_key : Buffer → Key) where
  participants_from_agree :
      (d : Buffer) (i left : ℕ)
      → Crank.participants_from public_key d i left ≡ Web.participants_from public_key d i left
  unfolding Crank.participants_from Web.participants_from
  participants_from_agree d i zero = refl
  participants_from_agree d i (suc left) = rw (participants_from_agree d (i + 1) left)

  -- On every byte array the crank's reader of rounds fails where the front end's fails, and else
  -- reads the same fields.
  pub parse_round_agree :
      (d : Buffer)
      → Crank.parse_round public_key d ≡ Option.map crank_round (Web.parse_round public_key d)
  unfolding Crank.parse_round Web.parse_round
  parse_round_agree d = simp (map-bind, participants_from_agree)

  -- So do the readers of participants, one of which uses fixed offsets and one a running offset.
  pub parse_participant_agree :
      (d : Buffer)
      → Crank.parse_participant public_key d
        ≡ Option.map crank_participant (Web.parse_participant public_key d)
  unfolding Crank.parse_participant Web.parse_participant
  parse_participant_agree d = ground arith

  -- Where a round can be read, the executor's short reader gives its status, total and degen mode.
  pub parse_round_meta_agree :
      (d : Buffer) (r : Web.RoundData Key)
      → Web.parse_round public_key d ≡ some r
      → parse_round_meta d
        ≡ some (record {
          status = r.status;
          total_usdc = r.total_usdc;
          degen_mode_status = r.degen_mode_status;
        })
  unfolding Web.parse_round parse_round_meta
  parse_round_meta_agree d r e = ground arith

  -- Where a round can be read, the executor finds somebody to reimburse exactly when the front end
  -- reads a payer other than the default key and a reimbursement flag of 0.
  pub parse_round_vrf_payer_agree :
      (equals : Key → Key → Bool) (default_key : Key) (d : Buffer) (r : Web.RoundData Key)
      → Web.parse_round public_key d ≡ some r
      → parse_round_vrf_payer public_key equals default_key d ≡ (
          if equals r.vrf_payer default_key
          then none
          else if is_zero r.vrf_reimbursed
          then some r.vrf_payer
          else none)
  unfolding Web.parse_round parse_round_vrf_payer
  parse_round_vrf_payer_agree equals default_key d r e = ground arith

  -- Where a config can be read, the executor's fee is the config's.
  pub parse_config_fee_bps_agree :
      (d : Buffer) (c : ParsedConfigLike Key)
      → parse_config public_key d ≡ some c
      → parse_config_fee_bps d ≡ some c.fee_bps
  unfolding parse_config parse_config_fee_bps
  parse_config_fee_bps_agree d c e = ground arith
