-- ===== src/Tests/Entries.antt =====
-- The entry "smtp inet - 1 smtpd -v" of a configuration file, behind a comment and a blank line.
use nowra.Base.{ℕ, ◌≡◌, refl, inl, inr, some, List, [], ◌∷◌, ◌++◌, arith, pos, ok}
use nowra.Argv.{Argv, is_delim}
use nowra.Argv.Tokens.{pieces, nonempty, push}
use nowra.Master.Entry.{decimal, is_comment, service, get_master_ent}
use nowra.Master.Fields.{
  Settings, Conf, same_text, inet, dash, atoi, skip_spaces, signed_value, digits_value,
}
use nowra.Master.Entry.Fresh.{IsRead, get_master_ent-IsRead}
use nowra.Master.Entry.Parsed.{own_options, get_master_ent-service}

abbrev pub set : Settings
set = record {
  var_proc_limit = 1;
  var_throttle_time = pos 10;
  var_daemon_dir = 46 ∷ 47 ∷ [];
  before_buf = 0;
}

abbrev pub comment : List ℕ
comment = 35 ∷ 32 ∷ 97 ∷ 32 ∷ 98 ∷ 10 ∷ []

abbrev pub blank_line : List ℕ
blank_line = 10 ∷ []

abbrev pub line : List ℕ
line =
    115 ∷ 109 ∷ 116 ∷ 112 ∷ 32 ∷ 105 ∷ 110 ∷ 101 ∷ 116 ∷ 32 ∷ 45 ∷ 32 ∷ 49 ∷ 32 ∷ 115 ∷ 109 ∷ 116
    ∷ 112 ∷ 100 ∷ 32 ∷ 45 ∷ 118 ∷ 10 ∷ []

abbrev smtp : List ℕ
smtp = 115 ∷ 109 ∷ 116 ∷ 112 ∷ []

abbrev smtpd : List ℕ
smtpd = 115 ∷ 109 ∷ 116 ∷ 112 ∷ 100 ∷ []

abbrev minus_v : List ℕ
minus_v = 45 ∷ 118 ∷ []

abbrev pub conf : Conf
conf = record {
  master_path = some smtp;
  master_fp = some (comment ∷ blank_line ∷ line ∷ []);
  master_line = 0;
}

get_master_ent_example :
    (a : Argv) × (get_master_ent set conf
      ≡ ok (some (service set smtp inet smtpd 0 1 a), record conf { master_fp = some [] }))
    × (a.argv ≡ own_options 1 smtpd smtp ++ minus_v ∷ [])
unfolding is_comment pieces nonempty push is_delim same_text atoi skip_spaces signed_value
    digits_value decimal
get_master_ent_example =
    get_master_ent-service set conf (comment ∷ blank_line ∷ []) [] line smtp dash (49 ∷ []) smtpd
      (minus_v ∷ []) 0 1 refl
      (inr (35, [], ((97 ∷ []) ∷ (98 ∷ []) ∷ []), refl, refl), (inl refl, tt)) refl (omega arith)
      refl refl refl refl

-- The same, for the next test.
entry_read :
    (a : Argv) × (get_master_ent set conf
      ≡ ok (some (service set smtp inet smtpd 0 1 a), record conf { master_fp = some [] }))
    × (a.argv ≡ own_options 1 smtpd smtp ++ minus_v ∷ [])
unfolding is_comment pieces nonempty push is_delim same_text atoi skip_spaces signed_value
    digits_value decimal
entry_read =
    get_master_ent-service set conf (comment ∷ blank_line ∷ []) [] line smtp dash (49 ∷ []) smtpd
      (minus_v ∷ []) 0 1 refl
      (inr (35, [], ((97 ∷ []) ∷ (98 ∷ []) ∷ []), refl, refl), (inl refl, tt)) refl (omega arith)
      refl refl refl refl

read_example :
    IsRead set
      (comment ∷ blank_line ∷ line ∷ [])
      (some (service set smtp inet smtpd 0 1 entry_read.0), record conf { master_fp = some [] })
read_example =
    get_master_ent-IsRead set conf (comment ∷ blank_line ∷ line ∷ [])
      (some (service set smtp inet smtpd 0 1 entry_read.0), record conf { master_fp = some [] })
      refl entry_read.1
