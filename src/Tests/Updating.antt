-- ===== src/Tests/Updating.antt =====
-- internal/updater: a machine with an old build, and a release that is newer.
use clawdh.Base.{
  ◌≡◌, refl, sym, ap, String, List, [], ◌∷◌, none, some, true, ◌||◌, ◌==◌, if◌then◌else◌,
  trim_space, has_prefix, without_prefix,
}
use native.Mathlib.Omega.{arith}
use clawdh.Local.Names.{to_lower}
use clawdh.Switching.Triggers.{fields}
use clawdh.Updating.Release.{
  Release, Payload, Response, Answer, unreachable, answered, done, Updater, Web, latest,
}
use clawdh.Updating.Checksums.{checksum_of}
use clawdh.Updating.Swap.{unix}
use clawdh.Updating.Install.{Host, Machine, check_and_apply, size}
use clawdh.Updating.Safe.{Safe, check_and_apply-Safe}
use clawdh.Updating.Settled.{check_and_apply_again}
use clawdh.Updating.Paused.{check_and_apply-other}
use clawdh.Updating.Fields.{has_no_space}
use clawdh.Updating.Published.{checksums_file, checksum_of-checksums_file}

abbrev response : String → Response
response body = record {
  status = 200;
  etag = "e1";
  remaining = "59";
  last_modified = 50;
  body = some body;
}

abbrev net : String → String → Answer
net url etag =
    if url == "https://api.github.com/repos/Saif0089/clawdh/releases/latest"
    then answered (response "{}")
    else if url == "sums"
        || url == "https://github.com/Saif0089/clawdh/releases/latest/download/checksums.txt"
    then answered (response "ABC  clawdh_linux_arm64\nnew  clawdh_linux_amd64\n")
    else if url == "program"
    then answered (response "new")
    else unreachable

abbrev payload : Payload
payload = record {
  name = "";
  tag_name = "v2";
  published_at = 50;
  assets = ("checksums.txt", "sums") ∷ ("clawdh_linux_amd64", "program") ∷ [];
}

abbrev web : Web
web = record { net = net; decode = λ body. some payload; goos = "linux"; goarch = "amd64" }

abbrev host : Host
host = record {
  readable = true;
  temp = true;
  written = true;
  synced = true;
  closed = true;
  executable = true;
  touches = true;
  removes = λ name. true;
  sha256 = λ content. content;
  platform = unix true;
}

abbrev updater : Updater
updater = record {
  repo = "";
  api_base = "";
  web_base = "";
  binary_path = "/home/me/clawdh";
  etag = "";
  cached = none;
  rate_limited_until = 0;
  last_check = 0;
  last_err = none;
}

abbrev machine : Machine
machine = record {
  updater = updater;
  disk = record {
    binary = some (record { content = "old"; mod_time = 40; mode = 493 });
    entries = [];
  };
}

abbrev release : Release
release = record {
  name = "v2";
  tag = "v2";
  published_at = 50;
  assets = ("checksums.txt", "sums") ∷ ("clawdh_linux_amd64", "program") ∷ [];
}

abbrev after : Machine
after = record {
  updater = record updater { etag = "e1"; cached = some release };
  disk = record {
    binary = some (record { content = "new"; mod_time = 50; mode = 493 });
    entries = [];
  };
}

installs : check_and_apply web host 60 machine ≡ (done (some release), after)
unfolding check_and_apply trim_space to_lower fields has_prefix without_prefix
installs = refl

check_and_apply-Safe_example : Safe web host 60 machine (check_and_apply web host 60 machine)
check_and_apply-Safe_example = check_and_apply-Safe web host 60 machine

abbrev later_state : Machine
later_state = record machine { disk = after.disk }

finds :
    latest web 70 later_state.updater
    ≡ (done release, record updater { etag = "e1"; cached = some release })
unfolding latest has_prefix
finds = refl

check_and_apply_again_example : check_and_apply web host 70 later_state ≡ (
  done none,
  record {
    updater = record updater { etag = "e1"; cached = some release };
    disk = later_state.disk;
  },
)
check_and_apply_again_example =
    check_and_apply_again web web host host 60 70 machine later_state release release
      (record updater { etag = "e1"; cached = some release }) (ap (λ t. t.0) installs)
      (sym (ap (λ t. (t.1).disk) installs)) finds (λ e. cc) (omega arith) (omega arith)
      (omega arith)

-- The API refuses until 90.
abbrev paused : Machine
paused = record machine { updater = record updater { rate_limited_until = 90 } }

-- One text at every address, and nothing where it is asked for with an ETag.
abbrev same_text : String → String → Answer
same_text url etag = answered (response "new  clawdh_linux_amd64\n")

abbrev without_etag : String → String → Answer
without_etag url etag = if etag == "" then same_text url etag else unreachable

check_and_apply-other_example :
    check_and_apply (record web { net = same_text }) host 60 paused
    ≡ check_and_apply (record web { net = without_etag }) host 60 paused
check_and_apply-other_example =
    check_and_apply-other (record web { net = same_text }) without_etag host 60 paused (λ e. cc)
      (omega arith) (λ file. refl)

abbrev entries : List (String × String)
entries = ("clawdh_linux_arm64", "ABC") ∷ ("clawdh_linux_amd64", "new") ∷ []

checksum_of-checksums_file_example :
    checksum_of "clawdh_linux_arm64" (checksums_file entries) ≡ some "abc"
unfolding has_no_space checksums_file size has_prefix to_lower
checksum_of-checksums_file_example =
    checksum_of-checksums_file "clawdh_linux_arm64" entries
      (((refl, λ e. cc), (refl, λ e. cc), refl), (((refl, λ e. cc), (refl, λ e. cc), refl), tt))
      (omega arith)
