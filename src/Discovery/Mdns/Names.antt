-- ===== src/Discovery/Mdns/Names.antt =====
-- The names under which a device is advertised, and under which it is found.
use filedrop.Base.{
  ℕ, zero, suc, ◌+◌, ◌≡◌, ◌≢◌, refl, sym, ap, ◌∙◌, inl, inr, Bool, true, false, Option, none, some,
  List, [], ◌∷◌, ◌++◌, append_assoc, arith, ◌==◌, ==_iff, nat_eq, list_eq, if◌then◌else◌, Text,
  text, All, Bool-cases,
}
use filedrop.Base.Dict.{Dict, lookup}
use filedrop.Base.Strings.{trim_end, trim_end_text, keep_end}
use filedrop.Errors.{Uuid}
use filedrop.Discovery.{DiscoveredDevice}
use filedrop.Discovery.Mdns.{
  service_type, sanitize_instance, Library, service_info, Resolved, service_resolved, display_name,
  id_or, resolved_device,
}

abbrev pub IsDotless : Text → Type 0
IsDotless = All (λ c. (c == b'.') ≡ false)

sanitize_instance-IsDotless : (name : Text) → IsDotless (sanitize_instance name)
unfolding sanitize_instance
sanitize_instance-IsDotless [] = tt
sanitize_instance-IsDotless (c ∷ name) = (ground arith, sanitize_instance-IsDotless name)

dots : Text → ℕ
dots [] = 0
dots (c ∷ s) = (if c == b'.' then 1 else 0) + dots s

dots-dotless : (s t : Text) → IsDotless s → dots (s ++ t) ≡ dots t
unfolding dots
dots-dotless [] t h = refl
dots-dotless (c ∷ s) t h = ground (arith, dots-dotless s t)

abbrev dot : Text
dot = b'.' ∷ []

dots-service_type : dots service_type ≡ 3
unfolding dots filedrop.Base.ℕ_discrete
dots-service_type = refl

dots-dot : dots dot ≡ 1
unfolding dots filedrop.Base.ℕ_discrete
dots-dot = refl

dotless-ne-service_type : (s : Text) → IsDotless s → (s ++ dot) ≢ service_type
dotless-ne-service_type s h e =
    absurd (omega (arith, dots-dotless s dot h, ap dots e, dots-service_type, dots-dot))

list-eq-false : (s t : Text) → s ≢ t → (s == t) ≡ false
list-eq-false s t h = ground arith

trim_end_text_self : trim_end_text service_type service_type ≡ []
unfolding trim_end_text list_eq filedrop.Base.ℕ_discrete
trim_end_text_self = refl

trim_end_text-append :
    (s : Text) → trim_end_text service_type (s ++ service_type) ≡ trim_end_text service_type s
unfolding trim_end_text
trim_end_text-append [] = trim_end_text_self
trim_end_text-append (c ∷ s) =
    ap (λ rest. if (c ∷ rest) == service_type then [] else c ∷ rest) (trim_end_text-append s)

trim_end_text-dotless : (s : Text) → IsDotless s → trim_end_text service_type (s ++ dot) ≡ s ++ dot
unfolding trim_end_text
trim_end_text-dotless [] h =
    rw (list-eq-false dot service_type (dotless-ne-service_type [] tt)) refl
trim_end_text-dotless (c ∷ s) h =
    ap (λ rest. if (c ∷ rest) == service_type then [] else c ∷ rest) (trim_end_text-dotless s h.1)
    ∙ rw (list-eq-false (c ∷ (s ++ dot)) service_type (dotless-ne-service_type (c ∷ s) h)) refl

is_dot : ℕ → Bool
is_dot c = c == b'.'

keep_end-dotless : (c : ℕ) (s : Text) → (c == b'.') ≡ false → keep_end is_dot c s ≡ c ∷ s
unfolding keep_end is_dot
keep_end-dotless c [] h = rw h refl
keep_end-dotless c (d ∷ s) h = refl

trim_end-dotless : (s : Text) → IsDotless s → trim_end is_dot (s ++ dot) ≡ s
unfolding trim_end keep_end is_dot filedrop.Base.ℕ_discrete
trim_end-dotless [] h = refl
trim_end-dotless (c ∷ s) h =
    ap (keep_end is_dot c) (trim_end-dotless s h.1) ∙ keep_end-dotless c s h.0

-- The name that is shown for a service whose instance name has no dot is that instance name.
pub display_name-instance : (s : Text) → IsDotless s → display_name (s ++ (dot ++ service_type)) ≡ s
unfolding display_name is_dot
display_name-instance s h =
    ap (λ t. trim_end is_dot (trim_end_text service_type t)) (sym (append_assoc s dot service_type))
    ∙ ap (trim_end is_dot) (trim_end_text-append (s ++ dot) ∙ trim_end_text-dotless s h)
    ∙ trim_end-dotless s h

abbrev properties : Text → Text → Dict Text Text
properties id platform = (text "device_id", id) ∷ (text "platform", platform) ∷ []

lookup-device_id :
    (id platform : Text) → lookup (text "device_id") (properties id platform) ≡ some id
unfolding lookup list_eq filedrop.Base.ℕ_discrete
lookup-device_id id platform = refl

lookup-platform :
    (id platform : Text) → lookup (text "platform") (properties id platform) ≡ some platform
unfolding lookup list_eq filedrop.Base.ℕ_discrete
lookup-platform id platform = refl

-- A service that another device has advertised is found with its id, its port and its platform, at the
-- first of its addresses and not as paired; but its name is the service's name, with dots replaced, and
-- not the name of the device, which is not part of what is advertised but for the host's name.
pub resolved_device-service_info :
    (lib : Library) (service_name address : Text) (more : List Text) (fresh : Uuid)
    (device : DiscoveredDevice) (found : Resolved)
    → ((id : Uuid) → lib.parse_uuid (lib.show_uuid id) ≡ some id)
    → let info = service_info lib service_name device in
      ((key : Text) → found.property key ≡ lookup key info.properties)
      → found.addresses_v4 ≡ address ∷ more
      → found.fullname ≡ info.instance_name ++ (dot ++ info.ty)
      → found.port ≡ info.port
      → resolved_device lib fresh (service_resolved found)
        ≡ some (record device {
          name = sanitize_instance service_name;
          address = address;
          paired = false;
        })
unfolding resolved_device service_info
resolved_device-service_info lib service_name address more fresh device found ids props addrs full
      port =
    let id = lib.show_uuid device.device_id in
    let known : found.property (text "device_id") ≡ some id =
      props (text "device_id") ∙ lookup-device_id id device.platform in
    let platform : found.property (text "platform") ≡ some device.platform =
      props (text "platform") ∙ lookup-platform id device.platform in
    let name : display_name found.fullname ≡ sanitize_instance service_name =
      ap display_name full
      ∙ display_name-instance (sanitize_instance service_name)
          (sanitize_instance-IsDotless service_name) in
    let same_id : id_or lib.parse_uuid fresh (found.property (text "device_id"))
        ≡ device.device_id =
      ap (id_or lib.parse_uuid fresh) known ∙ rw (ids device.device_id, id_or) refl in
    simp (addrs, same_id, platform, name, port) refl
