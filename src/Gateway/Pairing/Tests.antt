-- ===== src/Gateway/Pairing/Tests.antt =====
-- One code in the database, guessed with a hasher that compares the texts.
use gptlink.Common.Types.{Capability_eq, filesystem_read}
use gptlink.Gateway.Pairing.Redeem.{Guess, guessed, tried}
use gptlink.Gateway.Pairing.Attempts.{guesses_bounded, left, lost_of, reached_of, remaining}
use gptlink.Gateway.Pairing.Closed.{Call, creates, redeems, run}
use gptlink.Gateway.Pairing.Once.{Redeemed, redeem_once, redeem_sound}
use gptlink.Gateway.Pairing.{
  DeviceCredential, Draw, create_code, locator_of, new_device, normalized, redeem,
}
use gptlink.Persistence.Repositories.Devices as Devices
use gptlink.Persistence.Repositories.Pairing.{spendable}
use gptlink.Persistence.Repositories.Pairing as Repository
use gptlink.Persistence.Samples.{tables}
use gptlink.Prelude.{
  Bool, Chars, Chars_eq, List, String, String_eq, [], before, codes, false, find, none, refl, some,
  split, strip, upper, ℕ_eq, ◌+◌, ◌==◌, ◌∷◌, ◌≡◌, ◌≤◌,
}
use gptlink.Persistence.Models.{PairingCode, Tables}
use gptlink.Common.Action.{ok, ◌>>=◌}

abbrev compare_texts : String → Chars → Bool
compare_texts hash code = codes hash == code

abbrev offered : PairingCode
offered = record {
  code_hash = "ABCD-EFGH-JKLM";
  locator = some (codes "ABCD");
  expires_at = 600;
  attempts = 0;
  max_attempts = 2;
  created_at = 0;
  used_at = none;
  redeemed_device_id = none;
}

abbrev waiting : Tables
waiting = record tables { pairing_codes = offered ∷ [] }

abbrev guess_of : String → Guess
guess_of typed = record {
  typed = codes typed;
  metadata = record {
    display_name = "desk";
    platform = "linux";
    hostname = "desk";
    agent_version = "0.1.0";
    protocol_version = 1;
    capabilities = filesystem_read ∷ [];
  };
  drawn = record {
    started = 100;
    verified = 101;
    device_id = 9;
    token = codes "t";
    token_hash = codes "h";
  };
}

abbrev granted_id : DeviceCredential
granted_id = record { device_id = 9; token = codes "t" }

abbrev wrong : Guess
wrong = guess_of "abcd-eeee-eeee"

abbrev good : Guess
good = guess_of " abcd-efgh-jklm "

abbrev after_good : Tables
after_good = (tried compare_texts good waiting).1

good_runs : tried compare_texts good waiting ≡ (ok granted_id, after_good)
unfolding tried redeem normalized locator_of strip before upper split new_device
    Repository.begin_attempt Repository.mark_used Devices.add ◌>>=◌
good_runs = refl

guesses_bounded_example :
    reached_of compare_texts (codes "ABCD") (wrong ∷ wrong ∷ good ∷ []) waiting
      + remaining
          (codes "ABCD")
          (left compare_texts (wrong ∷ wrong ∷ good ∷ []) waiting).pairing_codes
    ≤ remaining (codes "ABCD") waiting.pairing_codes
      + lost_of compare_texts (wrong ∷ wrong ∷ good ∷ []) waiting
guesses_bounded_example =
    guesses_bounded compare_texts (codes "ABCD") (wrong ∷ wrong ∷ good ∷ []) waiting

redeem_sound_example : Redeemed compare_texts good waiting granted_id after_good
redeem_sound_example = redeem_sound compare_texts good waiting after_good granted_id good_runs

offered_found : find (spendable (guessed good) 100) waiting.pairing_codes ≡ some offered
unfolding normalized locator_of strip before upper
offered_found = refl

abbrev second : Draw
second = record {
  locator = codes "WXYZ";
  middle = codes "EFGH";
  last = codes "JKLM";
  code_hash = "WXYZ-EFGH-JKLM";
  now = 1;
}

-- the same code once more, with a fresh device id, and a new code
abbrev good_again : Guess
good_again = record good { drawn = record good.drawn { device_id = 10 } }

abbrev calls : List Call
calls = redeems good_again ∷ creates 600 2 (second ∷ []) ∷ []

abbrev other_good : Guess
other_good = record good_again { typed = codes "wxyz-efgh-jklm" }

abbrev other_id : DeviceCredential
other_id = record { device_id = 10; token = codes "t" }

abbrev after_other : Tables
after_other = (tried compare_texts other_good (run compare_texts calls after_good)).1

other_runs :
    tried compare_texts other_good (run compare_texts calls after_good) ≡ (ok other_id, after_other)
unfolding tried redeem normalized locator_of strip before upper split new_device create_code
    Repository.add_unique_locator Repository.begin_attempt Repository.mark_used Devices.add ◌>>=◌
other_runs = refl

redeem_once_example :
    (c' : PairingCode) × (find
        (spendable (guessed other_good) 100)
        (run compare_texts calls after_good).pairing_codes
      ≡ some c')
    × ((c'.code_hash == offered.code_hash) ≡ false)
redeem_once_example =
    redeem_once compare_texts good other_good waiting after_good after_other granted_id other_id
      offered calls good_runs offered_found other_runs
