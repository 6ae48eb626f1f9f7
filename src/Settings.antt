-- ===== src/Settings.antt =====
-- The settings of a user: packages/nextjs/components/profile/SettingsPanel.tsx. The backend is a
-- parameter; the time of the last save is left out.
pub mod Laws
mod Tests
use lucky_scratch.Prelude.{
  same_bool, ℕ, Bool, true, false, not, ◌&&◌, ◌||◌, Option, none, some, List, [], ◌∷◌, ◌++◌, take,
  if◌then◌else◌,
}
use lucky_scratch.Prelude.Texts.{Text, codes, text_eq, is_empty}
use lucky_scratch.Display.{last_of}
use lucky_scratch.Queries.{Key, Query, use_user_settings}
use lucky_scratch.Api.Pools.{UploadedImageAsset}

pub record SettingsState : Type 0 where
  pub nickname : Text
  pub broadcast_wins : Bool
  pub security_alerts : Bool
  pub terminal_hints : Bool
  pub auto_lock : Bool
  pub avatar_url : Text

-- `UpdateUserSettingsPayload`, and what `LuckyScratchUserSettings` has beside the time.
pub record UserSettings : Type 0 where
  pub nickname : Text
  pub broadcast_wins : Bool
  pub security_alerts : Bool
  pub terminal_hints : Bool
  pub auto_lock : Bool
  pub avatar_url : Option Text

unfoldable pub is_same_settings : SettingsState → SettingsState → Bool
is_same_settings left right =
    text_eq left.nickname right.nickname
    && same_bool left.broadcast_wins right.broadcast_wins
    && same_bool left.security_alerts right.security_alerts
    && same_bool left.terminal_hints right.terminal_hints
    && same_bool left.auto_lock right.auto_lock
    && text_eq left.avatar_url right.avatar_url

unfoldable pub to_payload : SettingsState → UserSettings
to_payload s = record {
  nickname = s.nickname;
  broadcast_wins = s.broadcast_wins;
  security_alerts = s.security_alerts;
  terminal_hints = s.terminal_hints;
  auto_lock = s.auto_lock;
  avatar_url = if is_empty s.avatar_url then none else some s.avatar_url;
}

unfoldable pub default_nickname : Option Text → Text
default_nickname none = codes "NOT_CONNECTED"
default_nickname (some address) =
    if is_empty address
    then codes "NOT_CONNECTED"
    else take 6 address ++ codes "..." ++ last_of 4 address

abbrev pub text_of : Option Text → Text
text_of none = []
text_of (some s) = s

-- The settings that a response stands for.
unfoldable pub loaded : Option Text → UserSettings → SettingsState
loaded address data_ = record {
  nickname = if is_empty data_.nickname then default_nickname address else data_.nickname;
  broadcast_wins = data_.broadcast_wins;
  security_alerts = data_.security_alerts;
  terminal_hints = data_.terminal_hints;
  auto_lock = data_.auto_lock;
  avatar_url = text_of data_.avatar_url;
}

pub data Note : Type 0 where
  success failure : Text → Note

pub record Panel : Type 0 where
  pub settings : SettingsState
  pub saved_settings : SettingsState
  pub is_uploading : Bool
  pub sent : List UserSettings
  pub invalidated : List Key
  pub notes : List Note

-- What the backend answers: a value, an Error of a message, or another exception.
pub data Answer (A : Type 0) : Type 0 where
  gave : A → Answer A
  error : Text → Answer A
  other : Answer A

unfoldable pub is_dirty : Panel → Bool
is_dirty panel = not (is_same_settings panel.settings panel.saved_settings)

abbrev pub note : Note → Panel → Panel
note n panel = record panel { notes = panel.notes ++ n ∷ [] }

-- A field of the form and its new value.
pub data Edit : Type 0 where
  set_nickname set_avatar_url : Text → Edit
  set_broadcast_wins set_security_alerts set_terminal_hints set_auto_lock : Bool → Edit

abbrev pub edited : Edit → SettingsState → SettingsState
edited (set_nickname v) s = record s { nickname = v }
edited (set_avatar_url v) s = record s { avatar_url = v }
edited (set_broadcast_wins v) s = record s { broadcast_wins = v }
edited (set_security_alerts v) s = record s { security_alerts = v }
edited (set_terminal_hints v) s = record s { terminal_hints = v }
edited (set_auto_lock v) s = record s { auto_lock = v }

unfoldable pub update_setting : Edit → Panel → Panel
update_setting e panel = record panel { settings = edited e panel.settings }

abbrev pub connected : Option Text → Bool
connected none = false
connected (some s) = not (is_empty s)

module _ (address : Option Text) where
  -- The effect on the data that the query has read.
  unfoldable pub load : Option UserSettings → Panel → Panel
  load none panel = panel
  load (some d) panel = record panel {
    settings = loaded address d;
    saved_settings = loaded address d;
  }

  abbrev pub after_save : Answer UserSettings → Panel → Panel
  after_save (gave d) panel = note (success (codes "Settings saved.")) (record panel {
    saved_settings = loaded address d;
    invalidated = panel.invalidated ++ (use_user_settings address).key ∷ [];
  })
  after_save (error message) panel = note (failure message) panel
  after_save other panel = note (failure (codes "Failed to save settings.")) panel

  unfoldable pub handle_save : (UserSettings → Answer UserSettings) → Panel → Panel
  handle_save update panel =
      let payload = to_payload panel.settings in
      if connected address
      then after_save (update payload) (record panel { sent = panel.sent ++ payload ∷ [] })
      else note (failure (codes "Connect your wallet before saving settings.")) panel

  abbrev pub after_upload : Answer UploadedImageAsset → Panel → Panel
  after_upload (gave asset) panel =
      note (success (codes "Avatar uploaded. Save settings to apply."))
        (update_setting (set_avatar_url asset.gateway_url) panel)
  after_upload (error message) panel = note (failure message) panel
  after_upload other panel = note (failure (codes "Avatar upload failed.")) panel

  -- `handleAvatarUpload`, up to its `finally`.
  unfoldable pub handle_avatar_upload : Bool → Answer UploadedImageAsset → Panel → Panel
  handle_avatar_upload has_file answer panel =
      if not has_file || not (connected address)
      then panel
      else record (after_upload answer panel) { is_uploading = false }
