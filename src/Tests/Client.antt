-- ===== src/Tests/Client.antt =====
-- The theorems on the client of the node and on the exits of the program, with a toy node that is
-- its height.
use x_b10cslashbademeister.Common.{
  ℕ, zero, suc, ◌+◌, ◌-◌, ◌≡◌, refl, ap, true, Option, none, some, List, [], ◌∷◌, replicate, length,
  arith,
}
use x_b10cslashbademeister.Rpc.Client.{
  Text, Library, Method, generate_to_address_method, get_raw_mempool_method,
  wait_till_rpc_server_ready, generate_to_height,
}
use x_b10cslashbademeister.Rpc.Client.Ready.{Waited, wait_till_rpc_server_ready-Waited}
use x_b10cslashbademeister.Rpc.Client.Generated.{
  Parsed, Mined, IsRegtest, Grows, generate_to_height-Grows,
}
use x_b10cslashbademeister.Tests.Scenario.{hash_of}

-- A JSON text is the text or the texts, and a number is a text of that length.
abbrev pub count_of : List (List Text) → ℕ
count_of [] = 0
count_of (number ∷ rest) = length number

abbrev pub toy_request : Method → List (List Text) → ℕ → Option (List Text) × ℕ
toy_request generate_to_address_method args n =
    (some (replicate (count_of args) []), n + count_of args)
toy_request get_raw_mempool_method args n = (some [], n)

abbrev pub toy_library : Library ℕ (List Text)
toy_library = record {
  parse_url = λ text. some (record { host = text; username = []; password = none });
  new_client = λ cfg. true;
  marshal_number = λ n. some (replicate n []);
  marshal_text = λ text. some (text ∷ []);
  marshal_true = some [];
  unmarshal_texts = λ raw. some raw;
  unmarshal_mempool = λ raw. some [];
  new_hash_from_str = λ text. some (hash_of 0);
  amount = some 10000000;
  get_block_count = λ n. (some n, n);
  get_block_chain_info = λ n. (some n, n);
  raw_request = toy_request;
  import_priv_key = λ key n. (some tt, n);
  send_to_address = λ address amount n. (some (hash_of 1), n);
}

wait_till_rpc_server_ready-Waited_example :
    Waited toy_library 10000 0 7 (wait_till_rpc_server_ready toy_library 10000 7)
wait_till_rpc_server_ready-Waited_example = wait_till_rpc_server_ready-Waited toy_library 10000 7

replicate-Parsed :
    (count : ℕ) → Parsed toy_library (replicate count []) (replicate count (hash_of 0))
replicate-Parsed zero = tt
replicate-Parsed (suc count) = (refl, replicate-Parsed count)

length-replicate : {A : Type 0} (count : ℕ) (a : A) → length (replicate count a) ≡ count
length-replicate zero a = refl
length-replicate (suc count) a = ap suc (length-replicate count a)

toy-Mined :
    (count : ℕ) (address : List Text) (n : ℕ)
    → Mined toy_library
        (λ h. h)
        count
        n
        (toy_request generate_to_address_method (replicate count [] ∷ address ∷ []) n)
toy-Mined count address n = record {
  raw = replicate count [];
  answers =
      ap (λ c. let o : Option (List Text) = some (replicate c []) in o) (length-replicate count []);
  texts = replicate count [];
  reads = refl;
  hashes = replicate count (hash_of 0);
  parsed = replicate-Parsed count;
  counted = length-replicate count (hash_of 0);
  grown = ap (λ c. n + c) (length-replicate count []);
}

toy-IsRegtest : IsRegtest toy_library (λ h. h)
toy-IsRegtest = record {
  info = λ n. refl;
  numbers = λ count. (replicate count [], refl);
  strings = λ text. (text ∷ [], refl);
  mines = λ count text number address n e f.
      let same : replicate count [] ≡ number = ground (arith, e) in
      rw (← same) (toy-Mined count address n);
}

generate_to_height-Grows_example :
    Grows toy_library (λ h. h) (200 - 7) 7 (generate_to_height toy_library [] 200 7)
generate_to_height-Grows_example =
    generate_to_height-Grows toy_library (λ h. h) toy-IsRegtest 200 [] 7
