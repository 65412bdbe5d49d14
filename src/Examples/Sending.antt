-- ===== src/Examples/Sending.antt =====
-- A transaction that is built for a swap, and one whose confirmation times out.
use winny.Base.{
  answered, raised, ℕ, ◌+◌, ◌*◌, ◌≡◌, ◌↔◌, refl, true, false, none, some, [], ◌∷◌, ◌==◌, ltb,
  if◌then◌else◌,
}
use winny.Text.{JsString, codes, includes, starts_with}
use winny.Executor.{Attempt, Failure, is_confirm_timeout_error}
use winny.Executor.Send.{
  finalized, Connection, returned, thrown, simulate_and_send, simulate, send, confirm, poll_status,
  status_verdict,
}
use winny.Executor.Send.Delivered.{
  IsSent, IsConfirmed, IsInDoubt, simulate_and_send-returned_iff, simulate_and_send-timeout_iff,
}
use winny.Executor.Build.{
  transfer, create_ata, set_compute_unit_price, begin_degen_execution, finalize_degen_success,
  from_jupiter, Claim, Builder, Built, JupiterInstruction, build_execution_tx, build_for_mint,
  assemble, middle, resolve_lookup_tables, present_tables, swap_middle, supported_owner, prefix_ixs,
  drain_ixs, cu_limit_ixs, is_cu_limit, body_ixs,
}
use winny.Executor.Build.Shape.{IsExecution, build_execution_tx-IsExecution}

-- The waiting times out, and the second of the three answers says that the transaction landed.
abbrev pub slow_connection : Connection
slow_connection = record {
  serialize = answered 1100;
  simulate_transaction = answered none;
  send_transaction = answered (codes "sig");
  confirm_transaction = raised (codes "Transaction was not confirmed in 30.00 seconds");
  get_signature_status = λ attempt.
      if ltb attempt 1
      then answered none
      else answered (some (record { confirmation_status = some finalized; err = none }));
}

slow_returns : simulate_and_send slow_connection ≡ returned (codes "sig")
unfolding simulate_and_send simulate send confirm poll_status status_verdict
    is_confirm_timeout_error includes starts_with
slow_returns = refl

simulate_and_send-returned_iff_example :
    (simulate_and_send slow_connection ≡ returned (codes "sig"))
    ↔ (IsSent slow_connection (codes "sig") × IsConfirmed slow_connection)
simulate_and_send-returned_iff_example =
    simulate_and_send-returned_iff slow_connection (codes "sig")

simulate_and_send-timeout_iff_example :
    ((f : Failure) × (simulate_and_send slow_connection ≡ thrown f) × (f.is_tx_timeout ≡ true))
    ↔ ((sig : JsString) × IsSent slow_connection sig × IsInDoubt slow_connection)
simulate_and_send-timeout_iff_example = simulate_and_send-timeout_iff slow_connection

-- Keys are numbers: 1 and 2 the token programs, 3 the compute budget program, 4 USDC.
abbrev ix : ℕ → ℕ → JupiterInstruction ℕ
ix program first = record { program_id = program; keys = []; payload = first ∷ 0 ∷ [] }

abbrev pub builder : Builder ℕ ℕ
builder = record {
  equals = ◌==◌;
  to_base58 = λ key. key ∷ [];
  is_usdc = λ a. false;
  new_public_key = λ mint. answered 9;
  associated_token_address = λ mint owner program. 100 * mint + 10 * owner + program;
  token_program = 1;
  token_2022_program = 2;
  compute_budget_program = 3;
  usdc_mint = 4;
  treasury_usdc_ata = 5;
  executor = 6;
  degen_priority_fee = 50000;
  direct_usdc_hash = [];
  jackpot_alt = some 77;
  mint_owner = λ mint. answered (some 2);
  token_account_balance = λ ata. answered 15;
  quote = λ a amount. answered (record { other_amount_threshold = 900; route_hash = 8 ∷ [] });
  swap_instructions = λ quote ata. answered (record {
    compute_budget_instructions = ix 3 2 ∷ ix 3 3 ∷ [];
    setup_instructions = ix 20 1 ∷ [];
    swap_instruction = ix 21 1;
    cleanup_instruction = some (ix 22 1);
    lookup_table_addresses = 30 ∷ 31 ∷ [];
  });
  lookup_table_accounts = λ addresses. answered (none ∷ some 78 ∷ []);
  latest_blockhash = answered (codes "hash");
}

abbrev pub claim : Claim ℕ
claim = record { winner = 7; round_id = 12 }

abbrev attempt : Attempt
attempt = record {
  candidate = record { rank = 0; index = 5; mint = some (codes "mint") };
  max_accounts = some 64;
  only_direct_routes = false;
  slippage_bps = some 300;
}

abbrev built : Built ℕ ℕ
built = record {
  instructions =
      transfer 461 5 15
      ∷ create_ata 972 7 9 2
      ∷ from_jupiter (ix 3 2)
      ∷ set_compute_unit_price 50000
      ∷ begin_degen_execution (record {
        winner = 7;
        round_id = 12;
        candidate_rank = 0;
        token_index = 5;
        min_out_raw = 900;
        route_hash = 8 ∷ [];
        selected_mint = 9;
        receiver_ata = 972;
        vrf_payer = none;
      })
      ∷ from_jupiter (ix 20 1)
      ∷ from_jupiter (ix 21 1)
      ∷ from_jupiter (ix 22 1)
      ∷ finalize_degen_success 7 12 972
      ∷ [];
  lookup_tables = 77 ∷ 78 ∷ [];
  blockhash = codes "hash";
}

builds : build_execution_tx builder claim attempt 1000 none ≡ answered built
unfolding build_execution_tx build_for_mint assemble middle swap_middle supported_owner prefix_ixs
    drain_ixs cu_limit_ixs is_cu_limit body_ixs resolve_lookup_tables present_tables
builds = refl

build_execution_tx-IsExecution_example :
    IsExecution builder claim attempt 1000 none built.instructions
build_execution_tx-IsExecution_example =
    build_execution_tx-IsExecution builder claim attempt 1000 none built builds
