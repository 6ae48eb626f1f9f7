-- ===== src/Settings/Laws.antt =====
-- When settings count as saved.
use lucky_scratch.Prelude.{
  same_bool-eq, ◌≡◌, refl, ap, true, false, Option, none, some, [], ◌∷◌, arith, if◌then◌else◌,
}
use lucky_scratch.Prelude.Texts.{Text, text_eq_refl, text_eq→eq, is_empty}
use lucky_scratch.Settings.{
  SettingsState, UserSettings, is_same_settings, to_payload, loaded, text_of, Panel, Answer, gave,
  is_dirty, connected, load, handle_save,
}

pub is_same_settings_refl : (s : SettingsState) → is_same_settings s s ≡ true
unfolding is_same_settings
is_same_settings_refl s = ground (arith, text_eq_refl s.nickname, text_eq_refl s.avatar_url)

pub is_same_settings-eq : (s t : SettingsState) → is_same_settings s t ≡ true → s ≡ t
unfolding is_same_settings
is_same_settings-eq s t h =
    let nickname : s.nickname ≡ t.nickname = text_eq→eq s.nickname t.nickname (ground arith) in
    let avatar : s.avatar_url ≡ t.avatar_url =
      text_eq→eq s.avatar_url t.avatar_url (ground arith) in
    let wins = same_bool-eq s.broadcast_wins t.broadcast_wins (ground arith) in
    let alerts = same_bool-eq s.security_alerts t.security_alerts (ground arith) in
    let hints = same_bool-eq s.terminal_hints t.terminal_hints (ground arith) in
    let lock = same_bool-eq s.auto_lock t.auto_lock (ground arith) in cc

avatar_kept : (url : Text) → text_of (if is_empty url then none else some url) ≡ url
avatar_kept [] = refl
avatar_kept (c ∷ s) = refl

-- What is saved is read back.
loaded-to_payload :
    (address : Option Text) (s : SettingsState)
    → is_empty s.nickname ≡ false
    → loaded address (to_payload s) ≡ s
unfolding loaded to_payload
loaded-to_payload address s h =
    rw h (ap (λ url. record s { avatar_url = url }) (avatar_kept s.avatar_url))

-- With a wallet connected and a nickname that is not empty, a save that the backend answers with
-- what it was sent leaves the settings as they were and nothing unsaved.
pub handle_save-is_dirty :
    (address : Option Text) (update : UserSettings → Answer UserSettings) (panel : Panel)
    → connected address ≡ true
    → update (to_payload panel.settings) ≡ gave (to_payload panel.settings)
    → is_empty panel.settings.nickname ≡ false
    → let after = handle_save address update panel in
      (is_dirty after ≡ false) × (after.settings ≡ panel.settings)
unfolding handle_save is_dirty
handle_save-is_dirty address update panel c h n =
    let same : loaded address (to_payload panel.settings) ≡ panel.settings =
      loaded-to_payload address panel.settings n in
    simp (c, h, same, is_same_settings_refl panel.settings) (refl, refl)

pub load-is_dirty :
    (address : Option Text) (d : UserSettings) (panel : Panel)
    → is_dirty (load address (some d) panel) ≡ false
unfolding is_dirty load
load-is_dirty address d panel = rw (is_same_settings_refl (loaded address d)) refl
