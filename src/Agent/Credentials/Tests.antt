-- ===== src/Agent/Credentials/Tests.antt =====
-- A credential that is saved on a disk that works, and on one whose replacement fails, for
-- src/gptlink/agent/client.py.
use gptlink.Agent.Credentials.{Credential, Format, Saving, Uuids, as_json, load, pair, save}
use gptlink.Agent.Credentials.Stored.{IsReadable, all_well, save_lem}
use gptlink.Agent.Paths.{FilePath}
use gptlink.Agent.Files.Write.{Contents, same_parts, same_path}
use gptlink.Agent.Files.Written.{IsFresh, IsUntouched}
use gptlink.Common.Json.{boolean, end, field, object, text}
use gptlink.Common.Action.{err, ok, ◌>>=◌}
use gptlink.Common.Errors.{Exception, unexpected}
use gptlink.Prelude.{List, String, [], arith, false, none, refl, some, true, ◌∷◌, ◌≡◌}

abbrev credential : Credential
credential = record {
  gateway = "https://g";
  device_id = "d1";
  token = "secret";
  display_name = "laptop";
}

abbrev format : Format
format = record {
  dumps = λ v. 1 ∷ 2 ∷ [];
  loads = λ bytes. some (as_json credential);
  str = λ v. elim v [ text t ↦ t | _ ↦ "" ];
}

format-IsReadable : IsReadable format credential
format-IsReadable = record { loads-dumps = refl; str_text = λ t. refl }

abbrev path : FilePath
path = record { absolute = true; parts = "agent.json" ∷ [] }

abbrev temporary : FilePath
temporary = record { absolute = true; parts = "tmp" ∷ ".agent.json.x" ∷ [] }

abbrev nothing : Contents
nothing q = none

longer :
    (ps : List String) → same_parts ps temporary.parts ≡ true → same_parts ps path.parts ≡ false
longer [] h = cc
longer (p ∷ []) h = ground arith
longer (p ∷ q ∷ ps) h = ground arith

apart : (q : FilePath) → same_path q temporary ≡ true → same_path q path ≡ false
apart q h = ground (arith, longer q.parts)

fresh : IsFresh temporary path nothing
fresh = record { unused = λ q h. refl; apart = apart }

abbrev working : Saving
working = record {
  prepared = ok tt;
  created = ok tt;
  stored = ok tt;
  left = [];
  replaced = ok tt;
  restricted = ok tt;
}

save_lem_example :
    let (o, files') = save format temporary path working credential nothing in
    ((all_well working ≡ true)
      → (o ≡ ok tt)
        × (load format path files' ≡ (ok credential, files'))
        × ((q : FilePath) → same_path q path ≡ false → files' q ≡ nothing q))
    × ((all_well working ≡ false)
        → ((e : Exception) × (o ≡ err e))
          × (working.restricted ≡ ok tt → IsUntouched nothing files'))
save_lem_example =
    save_lem format credential format-IsReadable temporary path nothing fresh working refl

-- a pairing whose id is a number
abbrev ids : Uuids
ids = record { uuid_of = λ t. some 1; uuid_text = λ n. "d1" }

paired_number :
    (pair format ids temporary path working "https://g"
      (ok
        (record { status_code = 201; body = some (object (field "device_id" (boolean true) end)) }))
      nothing).0
    ≡ err (unexpected "AttributeError")
unfolding pair ◌>>=◌
paired_number = refl
