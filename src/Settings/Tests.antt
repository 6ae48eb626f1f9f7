-- ===== src/Settings/Tests.antt =====
-- A panel that saves to a backend that echoes.
use lucky_scratch.Prelude.{◌≡◌, refl, true, false, some, []}
use lucky_scratch.Prelude.Texts.{codes}
use lucky_scratch.Settings.{
  SettingsState, Panel, is_dirty, is_same_settings, default_nickname, update_setting, set_auto_lock,
}

abbrev initial : SettingsState
initial = record {
  nickname = codes "alice";
  broadcast_wins = true;
  security_alerts = true;
  terminal_hints = false;
  auto_lock = true;
  avatar_url = [];
}

abbrev panel : Panel
panel = update_setting (set_auto_lock false) (record {
  settings = initial;
  saved_settings = initial;
  is_uploading = false;
  sent = [];
  invalidated = [];
  notes = [];
})

default_nickname_test : default_nickname (some (codes "0x12345678abcd")) ≡ codes "0x1234...abcd"
unfolding default_nickname
default_nickname_test = refl

dirty_test : is_dirty panel ≡ true
unfolding is_dirty is_same_settings update_setting
dirty_test = refl
