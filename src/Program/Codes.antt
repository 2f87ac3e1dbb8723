-- ===== src/Program/Codes.antt =====
-- How the program of cmd/daemon/main.go ends.
use x_b10cslashbademeister.Common.{ℕ, ◌≡◌, refl, ap, false, none, some, length, ◌==◌, arith}
use x_b10cslashbademeister.Errors.{ok, err, Error, wrap, initializing_client, password_not_set}
use x_b10cslashbademeister.Wire.{Btcd}
use x_b10cslashbademeister.Zmq.{ZmqSubscriber}
use x_b10cslashbademeister.Zmq.Subscription.{Socket, new_zmq_subscriber}
use x_b10cslashbademeister.Rpc.{BitcoinRpcClient}
use x_b10cslashbademeister.Rpc.Client.{
  Url, Library, ConnConfig, parse_address, new_bitcoin_rpc_client,
}
use x_b10cslashbademeister.Storage.Database.{Engine}
use x_b10cslashbademeister.Program.{
  Flags, System, set_log_level, connect, prepare, Exits, fatal, panics, runs, unfinished,
  unfinished_panics, run_panics,
}

module _ {N Raw : Type 0} (library : Library N Raw) (b : Btcd) (socket : Socket) (engine : Engine)
    (answers : ConnConfig → BitcoinRpcClient) where
  -- The client refuses an address without a password.
  prepare-no_password :
      (flags : Flags) (s : System N) (z : ZmqSubscriber) (u : Url)
      → set_log_level flags.log_level ≡ ok tt
      → new_zmq_subscriber socket ≡ ok z
      → (length flags.rpc_address == 0) ≡ false
      → library.parse_url flags.rpc_address ≡ some u
      → u.password ≡ none
      → prepare library socket flags s ≡ (err (wrap initializing_client password_not_set), s)
  unfolding prepare connect new_bitcoin_rpc_client parse_address
  prepare-no_password flags s z u level sub given parsed no_password =
      ground (arith, level, sub, given, parsed, no_password)

  refused-fatal :
      (flags : Flags) (s : System N) (e : Error) (code : ℕ)
      → prepare library socket flags s ≡ (err e, s)
      → Exits library b socket engine answers flags s code
      → code ≡ 1
  refused-fatal flags s e code r (fatal e' p c) = c
  refused-fatal flags s e code r (panics p c) = absurd (cc (p, r))
  refused-fatal flags s e code r (runs zmq_sub client db d e' p o run c) = absurd (cc (p, r))
  refused-fatal flags s e code r (unfinished zmq_sub client e' p o c) = absurd (cc (p, r))
  refused-fatal flags s e code r (unfinished_panics zmq_sub client p o c) = absurd (cc (p, r))
  refused-fatal flags s e code r (run_panics zmq_sub client db d p o run c) = absurd (cc (p, r))

  -- Where the flag of the log is a known level and the subscriber can be made, but the address of
  -- the node has no password, as the default address has none: the program exits with 1 and with
  -- no other code, and neither the node has been called nor the database opened.
  pub Exits-no_password :
      (flags : Flags) (s : System N) (z : ZmqSubscriber) (u : Url)
      → set_log_level flags.log_level ≡ ok tt
      → new_zmq_subscriber socket ≡ ok z
      → (length flags.rpc_address == 0) ≡ false
      → library.parse_url flags.rpc_address ≡ some u
      → u.password ≡ none
      → Exits library b socket engine answers flags s 1
        × ((code : ℕ) → Exits library b socket engine answers flags s code → code ≡ 1)
        × ((prepare library socket flags s).1 ≡ s)
  Exits-no_password flags s z u level sub given parsed no_password =
      let refused = prepare-no_password flags s z u level sub given parsed no_password in
      (
        fatal (wrap initializing_client password_not_set) (ap (λ r. r.0) refused) refl,
        λ code. refused-fatal flags s (wrap initializing_client password_not_set) code refused,
        ap (λ r. r.1) refused,
      )
