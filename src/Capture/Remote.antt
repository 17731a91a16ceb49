-- ===== src/Capture/Remote.antt =====
-- Which process is a remote-control client, src-tauri/src/remote_clients.rs, and what
-- src-tauri/src/clipboard.rs makes of it. A process name is the list of its characters.
use cubby_clipboard.Prelude.{
  ℕ, ◌+◌, Bool, true, false, not, ◌&&◌, ◌||◌, List, [], ◌∷◌, Option, none, some, map, if◌then◌else◌,
}
use cubby_clipboard.Secrets.Text.{is_upper, text_eq}

pub data RemoteClient : Type 0 where
  generic rdp ninja : RemoteClient

abbrev exe : List ℕ
exe = 46 ∷ b'e' ∷ b'x' ∷ b'e' ∷ []

abbrev pub ncplayer : List ℕ
ncplayer = b'n' ∷ b'c' ∷ b'p' ∷ b'l' ∷ b'a' ∷ b'y' ∷ b'e' ∷ b'r' ∷ exe

abbrev pub mstsc : List ℕ
mstsc = b'm' ∷ b's' ∷ b't' ∷ b's' ∷ b'c' ∷ exe

abbrev pub msrdc : List ℕ
msrdc = b'm' ∷ b's' ∷ b'r' ∷ b'd' ∷ b'c' ∷ exe

abbrev pub mremoteng : List ℕ
mremoteng = b'm' ∷ b'r' ∷ b'e' ∷ b'm' ∷ b'o' ∷ b't' ∷ b'e' ∷ b'n' ∷ b'g' ∷ exe

abbrev pub anydesk : List ℕ
anydesk = b'a' ∷ b'n' ∷ b'y' ∷ b'd' ∷ b'e' ∷ b's' ∷ b'k' ∷ exe

abbrev pub teamviewer : List ℕ
teamviewer = b't' ∷ b'e' ∷ b'a' ∷ b'm' ∷ b'v' ∷ b'i' ∷ b'e' ∷ b'w' ∷ b'e' ∷ b'r' ∷ exe

abbrev pub teamviewer_desktop : List ℕ
teamviewer_desktop =
    b't' ∷ b'e' ∷ b'a' ∷ b'm' ∷ b'v' ∷ b'i' ∷ b'e' ∷ b'w' ∷ b'e' ∷ b'r' ∷ 95 ∷ b'd' ∷ b'e' ∷ b's'
    ∷ b'k' ∷ b't' ∷ b'o' ∷ b'p' ∷ exe

abbrev pub screenconnect_clientservice : List ℕ
screenconnect_clientservice =
    b's' ∷ b'c' ∷ b'r' ∷ b'e' ∷ b'e' ∷ b'n' ∷ b'c' ∷ b'o' ∷ b'n' ∷ b'n' ∷ b'e' ∷ b'c' ∷ b't' ∷ 46
    ∷ b'c' ∷ b'l' ∷ b'i' ∷ b'e' ∷ b'n' ∷ b't' ∷ b's' ∷ b'e' ∷ b'r' ∷ b'v' ∷ b'i' ∷ b'c' ∷ b'e' ∷ exe

abbrev pub screenconnect_windowsclient : List ℕ
screenconnect_windowsclient =
    b's' ∷ b'c' ∷ b'r' ∷ b'e' ∷ b'e' ∷ b'n' ∷ b'c' ∷ b'o' ∷ b'n' ∷ b'n' ∷ b'e' ∷ b'c' ∷ b't' ∷ 46
    ∷ b'w' ∷ b'i' ∷ b'n' ∷ b'd' ∷ b'o' ∷ b'w' ∷ b's' ∷ b'c' ∷ b'l' ∷ b'i' ∷ b'e' ∷ b'n' ∷ b't' ∷ exe

abbrev pub splashtop : List ℕ
splashtop = b's' ∷ b'p' ∷ b'l' ∷ b'a' ∷ b's' ∷ b'h' ∷ b't' ∷ b'o' ∷ b'p' ∷ exe

abbrev pub strwinclt : List ℕ
strwinclt = b's' ∷ b't' ∷ b'r' ∷ b'w' ∷ b'i' ∷ b'n' ∷ b'c' ∷ b'l' ∷ b't' ∷ exe

abbrev pub rustdesk : List ℕ
rustdesk = b'r' ∷ b'u' ∷ b's' ∷ b't' ∷ b'd' ∷ b'e' ∷ b's' ∷ b'k' ∷ exe

-- The ASCII letters only.
abbrev pub to_ascii_lowercase : ℕ → ℕ
to_ascii_lowercase c = if is_upper c then c + 32 else c

unfoldable pub eq_ignore_ascii_case : List ℕ → List ℕ → Bool
eq_ignore_ascii_case a b = text_eq (map to_ascii_lowercase a) (map to_ascii_lowercase b)

-- `any` over the candidates.
unfoldable pub is_any : List (List ℕ) → List ℕ → Bool
unfolding eq_ignore_ascii_case
is_any [] name = false
is_any (candidate ∷ candidates) name = eq_ignore_ascii_case name candidate || is_any candidates name

unfoldable pub classify_remote_process : List ℕ → Option RemoteClient
unfolding is_any eq_ignore_ascii_case
classify_remote_process name =
    if eq_ignore_ascii_case name ncplayer
    then some ninja
    else if is_any (mstsc ∷ msrdc ∷ mremoteng ∷ []) name
    then some rdp
    else if is_any
        (anydesk ∷ teamviewer ∷ teamviewer_desktop ∷ screenconnect_clientservice
          ∷ screenconnect_windowsclient ∷ splashtop ∷ strwinclt ∷ rustdesk ∷ [])
        name
    then some generic
    else none

abbrev pub is_client : Option RemoteClient → Bool
is_client none = false
is_client (some client) = true

abbrev pub is_rdp : Option RemoteClient → Bool
is_rdp (some rdp) = true
is_rdp _ = false

unfoldable pub is_remote_client_process : Option (List ℕ) → Bool
unfolding classify_remote_process
is_remote_client_process none = false
is_remote_client_process (some exe_name) = is_client (classify_remote_process exe_name)

unfoldable pub is_remote_client_owner : Option (List ℕ) → Bool → Bool
unfolding is_remote_client_process
is_remote_client_owner exe_name is_explicit_owner =
    is_explicit_owner && is_remote_client_process exe_name

abbrev pub is_rdp_process : Option (List ℕ) → Bool
unfolding classify_remote_process
is_rdp_process none = false
is_rdp_process (some exe_name) = is_rdp (classify_remote_process exe_name)

unfoldable pub is_rdp_client_owner : Option (List ℕ) → Bool → Bool
is_rdp_client_owner exe_name is_explicit_owner = is_explicit_owner && is_rdp_process exe_name

unfoldable pub should_relay_capture : Bool → Bool → Bool → Bool
should_relay_capture relay_enabled remote_client app_ignored =
    relay_enabled && (remote_client && not app_ignored)
