-- ===== src/Correlate/Predicates.antt =====
-- pkg/correlate/rules.go: the predicates of the built-in rules. Package net's addresses are an argument.
use neurosentry.Common.{
  Bool, List, Option, Str, [], any, contains, false, has_suffix, if◌then◌else◌, int_eq, is_empty,
  leb, nat_beq, nat_eq, none, not, some, str, str_eq, to_lower, true, ℕ, ◌&&◌, ◌==◌, ◌||◌, ◌∷◌,
}
use neurosentry.Correlate.{Signal, attr}

abbrev pub layer_ai : Str
layer_ai = str "ai"

abbrev pub layer_mcp : Str
layer_mcp = str "mcp"

abbrev pub layer_kernel_file : Str
layer_kernel_file = str "kernel_file"

abbrev pub layer_kernel_net : Str
layer_kernel_net = str "kernel_net"

abbrev pub layer_kernel_proc : Str
layer_kernel_proc = str "kernel_proc"

abbrev pub layer_model : Str
layer_model = str "model"

abbrev pub secret_path_hints : List Str
secret_path_hints =
    str "shadow"
    ∷ str "/.ssh/"
    ∷ str "id_rsa"
    ∷ str "id_ed25519"
    ∷ str ".aws/credentials"
    ∷ str ".env"
    ∷ str "/etc/passwd"
    ∷ str ".pem"
    ∷ str ".pgpass"
    ∷ str "kubeconfig"
    ∷ str ".netrc"
    ∷ []

abbrev pub model_ext_hints : List Str
model_ext_hints =
    str ".safetensors"
    ∷ str ".gguf"
    ∷ str ".pth"
    ∷ str ".pt"
    ∷ str ".onnx"
    ∷ str ".h5"
    ∷ str ".ckpt"
    ∷ str ".bin"
    ∷ []

abbrev pub shell_comms : List Str
shell_comms =
    str "sh"
    ∷ str "bash"
    ∷ str "zsh"
    ∷ str "dash"
    ∷ str "ash"
    ∷ str "ksh"
    ∷ str "csh"
    ∷ str "nc"
    ∷ str "ncat"
    ∷ str "socat"
    ∷ []

abbrev pub container_escape_hints : List Str
container_escape_hints =
    str "docker.sock"
    ∷ str "/proc/1/root"
    ∷ str "/var/run/docker"
    ∷ str "/run/containerd"
    ∷ str "/host/"
    ∷ str ".dockerenv"
    ∷ []

-- pathIsModel
pub path_is_model : Signal → Bool
path_is_model s = any (λ e. has_suffix (to_lower (attr s (str "path"))) e) model_ext_hints

-- commIsShell
pub comm_is_shell : Signal → Bool
comm_is_shell s = any (λ sh. to_lower (attr s (str "comm")) == sh) shell_comms

-- pathIsContainerEscape
pub path_is_container_escape : Signal → Bool
path_is_container_escape s =
    any (λ h. contains (to_lower (attr s (str "path"))) h) container_escape_hints

-- isUnsanctionedAI
pub is_unsanctioned_ai : Signal → Bool
is_unsanctioned_ai s = s.layer == layer_kernel_net && attr s (str "shadow_ai") == str "true"

-- pathIsSecret
unfoldable pub path_is_secret : Signal → Bool
path_is_secret s =
    let p = to_lower (attr s (str "path")) in
    if is_empty p then false else any (λ h. contains p h) secret_path_hints

-- isLLMBound
unfoldable pub is_llm_bound : Signal → Bool
is_llm_bound s =
    if s.layer == layer_ai
    then true
    else if s.layer == layer_kernel_net && not (is_empty (attr s (str "ai_provider")))
    then true
    else false

-- isInjectionFlagged
pub is_injection_flagged : Signal → Bool
is_injection_flagged s =
    attr s (str "injection") == str "malicious" || attr s (str "injection") == str "suspicious"

-- isKernelSideEffect
pub is_kernel_side_effect : Signal → Bool
is_kernel_side_effect s = s.layer == layer_kernel_proc || s.layer == layer_kernel_net

-- modelUnverified
pub model_unverified : Signal → Bool
model_unverified s = attr s (str "verified") == str "false"

-- The four bytes of an IPv4 address.
pub record Ip4 : Type 0 where
  pub b0 : ℕ
  pub b1 : ℕ
  pub b2 : ℕ
  pub b3 : ℕ

-- What package net makes of addresses.
pub record Addresses : Type 1 where
  pub Ip : Type 0
  pub parse_ip : Str → Option Ip
  pub is_loopback : Ip → Bool
  pub is_link_local_unicast : Ip → Bool
  pub is_link_local_multicast : Ip → Bool
  pub is_global_unicast : Ip → Bool
  pub to4 : Ip → Option Ip4

-- The switch of isPublicIP.
unfoldable pub is_public_ip4 : Ip4 → Bool
is_public_ip4 a =
    if nat_beq a.b0 10
    then false
    else if nat_beq a.b0 172 && (leb 16 a.b1 && leb a.b1 31)
    then false
    else if nat_beq a.b0 192 && nat_beq a.b1 168
    then false
    else if nat_beq a.b0 127
    then false
    else true

module _ (net : Addresses) where
  -- Loopback and link-local addresses.
  abbrev pub is_local : net.Ip → Bool
  is_local ip =
      net.is_loopback ip || (net.is_link_local_unicast ip || net.is_link_local_multicast ip)

  -- isPublicIP
  unfoldable pub is_public_ip : net.Ip → Bool
  unfolding is_public_ip4
  is_public_ip ip =
      if is_local ip
      then false
      else elim (net.to4 ip) [ none ↦ net.is_global_unicast ip | some a ↦ is_public_ip4 a ]

  -- dstIsExternal
  unfoldable pub dst_is_external : Signal → Bool
  unfolding is_public_ip
  dst_is_external s =
      if attr s (str "external") == str "true"
      then true
      else if is_empty (attr s (str "dst"))
      then false
      else elim (net.parse_ip (attr s (str "dst"))) [ none ↦ false | some ip ↦ is_public_ip ip ]
