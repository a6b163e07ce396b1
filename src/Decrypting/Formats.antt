-- ===== src/Decrypting/Formats.antt =====
-- The formats of SOPS and their detection.
pub mod Detection
use fork_kustomize_controlle.Prelude.{
  String, Bool, Option, none, some, List, [], ◌∷◌, if◌then◌else◌, is_some,
}
use fork_kustomize_controlle.Prelude.Texts.{occurs_in, has_suffix}

-- `formats.Format`; `unsupported` is the -1 of `unsupportedFormat`
pub data Format : Type 0 where
  binary dotenv ini json yaml unsupported : Format

-- `sopsFormatToString`
abbrev pub sops_format_to_string : Format → String
sops_format_to_string Format.binary = "binary"
sops_format_to_string Format.dotenv = "dotenv"
sops_format_to_string Format.ini = "INI"
sops_format_to_string Format.json = "JSON"
sops_format_to_string Format.yaml = "YAML"
sops_format_to_string Format.unsupported = ""

-- `sopsFormatToMarkerBytes`. A format that is not in the map has the empty marker.
abbrev pub sops_format_to_marker_bytes : Format → String
sops_format_to_marker_bytes Format.binary = "\"mac\": \"ENC["
sops_format_to_marker_bytes Format.dotenv = "sops_mac=ENC["
sops_format_to_marker_bytes Format.ini = "[sops]"
sops_format_to_marker_bytes Format.json = "\"mac\": \"ENC["
sops_format_to_marker_bytes Format.yaml = "mac: ENC["
sops_format_to_marker_bytes Format.unsupported = ""

-- `formatForPath`, with `formats.FormatForPath`
unfoldable pub format_for_path : (String → Format) → String → Format
unfolding has_suffix
format_for_path known path = if has_suffix ".dockerconfigjson" path then Format.json else known path

-- `detectFormatFromMarkerBytes`; the keys are in the order in which the map is visited, which
-- changes from call to call
unfoldable pub detect_format_from_marker_bytes : List Format → String → Format
unfolding occurs_in
detect_format_from_marker_bytes [] b = Format.unsupported
detect_format_from_marker_bytes (k ∷ ks) b =
    let rest = detect_format_from_marker_bytes ks b in
    if occurs_in (sops_format_to_marker_bytes k) b then k else rest
