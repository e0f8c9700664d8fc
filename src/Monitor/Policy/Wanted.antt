-- ===== src/Monitor/Policy/Wanted.antt =====
-- What the Wi-Fi settings ask for, said without the order of the tests of `should_enable_service`.
use boxproxy.Prelude.{
  String, Bool, true, false, not, ◌&&◌, List, [], ◌∷◌, ◌==◌, eq_iff, is_empty, ◌≡◌, ◌≢◌, refl, ◌⊎◌,
  inl, inr, ◌↔◌, Bool-cases, sym, ◌∙◌, if◌then◌else◌,
}
use native.Mathlib.Omega.{arith}
use mathlib.Core.List.{Memᴰ}
use boxproxy.Config.{Config}
use boxproxy.Monitor.{WifiObservation}
use boxproxy.Monitor.Parse.{contains_exact}
use boxproxy.Monitor.Policy.{is_listed, should_enable_service}

contains_exact→Mem : (xs : List String) (k : String) → contains_exact xs k ≡ true → Memᴰ k xs
contains_exact→Mem [] k h = grind arith
contains_exact→Mem (x ∷ xs) k h = elim (Bool-cases (x == k)) [
  | inl same ↦ Memᴰ.head (rw ((eq_iff x k).0 same) refl)
  | inr other ↦ Memᴰ.tail (contains_exact→Mem xs k (sym (rw (other) refl) ∙ h))
]

Mem→contains_exact : (xs : List String) (k : String) → Memᴰ k xs → contains_exact xs k ≡ true
Mem→contains_exact [] k m = elim m [ ]
Mem→contains_exact (x ∷ xs) k (Memᴰ.head e) = rw ((eq_iff x k).1 (sym e)) refl
Mem→contains_exact (x ∷ xs) k (Memᴰ.tail m) = elim (Bool-cases (x == k)) [
  | inl same ↦ rw same refl
  | inr other ↦ rw other (Mem→contains_exact xs k m)
]

apart : (s t : String) → (s == t) ≡ false → s ≢ t
apart s t h = λ e. grind (arith, eq_iff s t)

told_apart : (s t : String) → s ≢ t → (s == t) ≡ false
told_apart s t h = grind (arith, eq_iff s t)

-- The network is on the list that counts for it.
pub data Matches (bssids ssids : List String) (bssid ssid : String) : Type 0 where
  by_bssid : bssid ≢ "unknown" → Memᴰ bssid bssids → Matches bssids ssids bssid ssid
  by_ssid : (bssids ≡ []) ⊎ (bssid ≡ "unknown") → Memᴰ ssid ssids → Matches bssids ssids bssid ssid

abbrev pub IsListed : Config → WifiObservation → Type 0
IsListed c o = Matches c.wifi_bssids c.wifi_ssids o.bssid o.ssid

-- Why the core should run. Any other list mode is read as that of a blacklist.
pub data Wanted (c : Config) (o : WifiObservation) : Type 0 where
  offline : o.connected ≡ false → c.wifi_use_on_disconnect ≡ true → Wanted c o
  anywhere :
      o.connected ≡ true
      → c.wifi_use_on_connect ≡ true
      → c.wifi_enable_ssid_matching ≡ false
      → Wanted c o
  allowed :
      o.connected ≡ true
      → c.wifi_use_on_connect ≡ true
      → c.wifi_enable_ssid_matching ≡ true
      → c.wifi_list_mode ≡ "whitelist"
      → IsListed c o
      → Wanted c o
  not_denied :
      o.connected ≡ true
      → c.wifi_use_on_connect ≡ true
      → c.wifi_enable_ssid_matching ≡ true
      → c.wifi_list_mode ≢ "whitelist"
      → ¬ IsListed c o
      → Wanted c o

abbrev listed : List String → List String → String → String → Bool
listed bssids ssids bssid ssid =
    if not (is_empty bssids) && not (bssid == "unknown")
    then contains_exact bssids bssid
    else if not (is_empty ssids)
    then contains_exact ssids ssid
    else false

ssid_listed :
    (ssids : List String) (ssid : String)
    → (if not (is_empty ssids) then contains_exact ssids ssid else false)
      ≡ contains_exact ssids ssid
ssid_listed [] ssid = refl
ssid_listed (x ∷ xs) ssid = refl

listed→Matches :
    (bssids ssids : List String) (bssid ssid : String)
    → listed bssids ssids bssid ssid ≡ true
    → Matches bssids ssids bssid ssid
listed→Matches [] ssids bssid ssid h =
    Matches.by_ssid (inl refl) (contains_exact→Mem ssids ssid (sym (ssid_listed ssids ssid) ∙ h))
listed→Matches (x ∷ xs) ssids bssid ssid h = elim (Bool-cases (bssid == "unknown")) [
  | inl unknown ↦
      Matches.by_ssid (inr ((eq_iff bssid "unknown").0 unknown))
        (contains_exact→Mem ssids ssid (sym (ssid_listed ssids ssid) ∙ (sym (rw unknown refl) ∙ h)))
  | inr known ↦
      Matches.by_bssid (apart bssid "unknown" known)
        (contains_exact→Mem (x ∷ xs) bssid (sym (rw known refl) ∙ h))
]

Matches→listed :
    (bssids ssids : List String) (bssid ssid : String)
    → Matches bssids ssids bssid ssid
    → listed bssids ssids bssid ssid ≡ true
Matches→listed [] ssids bssid ssid (Matches.by_bssid known m) = elim m [ ]
Matches→listed (x ∷ xs) ssids bssid ssid (Matches.by_bssid known m) =
    rw (told_apart bssid "unknown" known) (Mem→contains_exact (x ∷ xs) bssid m)
Matches→listed bssids ssids bssid ssid (Matches.by_ssid (inl none) m) =
    rw none (ssid_listed ssids ssid ∙ Mem→contains_exact ssids ssid m)
Matches→listed [] ssids bssid ssid (Matches.by_ssid (inr unknown) m) =
    ssid_listed ssids ssid ∙ Mem→contains_exact ssids ssid m
Matches→listed (x ∷ xs) ssids bssid ssid (Matches.by_ssid (inr unknown) m) =
    rw unknown (ssid_listed ssids ssid ∙ Mem→contains_exact ssids ssid m)

is_listed_lem :
    (c : Config) (o : WifiObservation)
    → ((is_listed c o ≡ true) → IsListed c o) × (IsListed c o → is_listed c o ≡ true)
unfolding is_listed
is_listed_lem c o = (
  listed→Matches c.wifi_bssids c.wifi_ssids o.bssid o.ssid,
  Matches→listed c.wifi_bssids c.wifi_ssids o.bssid o.ssid,
)

-- The last two tests of the chain.
by_list :
    (c : Config) (o : WifiObservation)
    → o.connected ≡ true
    → c.wifi_use_on_connect ≡ true
    → c.wifi_enable_ssid_matching ≡ true
    → (if is_listed c o
        then c.wifi_list_mode == "whitelist"
        else not (c.wifi_list_mode == "whitelist"))
      ≡ true
    → Wanted c o
by_list c o on wish matching h = elim (Bool-cases (is_listed c o)) [
  | inl inside ↦
      Wanted.allowed on wish matching
        ((eq_iff c.wifi_list_mode "whitelist").0 (sym (rw inside refl) ∙ h))
        ((is_listed_lem c o).0 inside)
  | inr outside ↦
      Wanted.not_denied on wish matching
        (λ white. grind (arith, eq_iff c.wifi_list_mode "whitelist"))
        (λ m. grind (arith, is_listed_lem c o))
]

enabled→Wanted : (c : Config) (o : WifiObservation) → should_enable_service c o ≡ true → Wanted c o
unfolding should_enable_service
enabled→Wanted c o h = elim (Bool-cases o.connected) [
  | inr off ↦ Wanted.offline off (sym (rw off refl) ∙ h)
  | inl on ↦ elim (Bool-cases c.wifi_use_on_connect) [
    | inr idle ↦ grind arith
    | inl wish ↦ elim (Bool-cases c.wifi_enable_ssid_matching) [
      | inr free ↦ Wanted.anywhere on wish free
      | inl matching ↦ by_list c o on wish matching (sym (rw (on, wish, matching) refl) ∙ h)
    ]
  ]
]

Wanted→enabled : (c : Config) (o : WifiObservation) → Wanted c o → should_enable_service c o ≡ true
unfolding should_enable_service
Wanted→enabled c o (Wanted.offline off wish) = rw (off, wish)
Wanted→enabled c o (Wanted.anywhere on wish free) = rw (on, wish, free)
Wanted→enabled c o (Wanted.allowed on wish matching white m) =
    rw (on, wish, matching, (is_listed_lem c o).1 m, white)
Wanted→enabled c o (Wanted.not_denied on wish matching black out) =
    grind (arith, eq_iff c.wifi_list_mode "whitelist", is_listed_lem c o)

-- The core is enabled exactly when the settings ask for it on the link that is seen: off the
-- network if `wifi_use_on_disconnect` says so; on a network if `wifi_use_on_connect` says so and
-- either no list counts, or the network is on a white list, or it is not on a list of another
-- mode. A network is on the list by its known BSSID, or by its SSID when there is no list of
-- BSSIDs or the BSSID is unknown.
pub should_enable_service_lem :
    (c : Config) (o : WifiObservation) → (should_enable_service c o ≡ true) ↔ Wanted c o
should_enable_service_lem c o = (enabled→Wanted c o, Wanted→enabled c o)
