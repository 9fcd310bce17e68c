-- ===== src/Ssh/Client/Connect.antt =====
-- What NewClient of ssh/client.go connects to.
use cbtools_autobench.Base.{◌≡◌, refl, ◌∙◌, String, ◌==◌, eq_iff, Bool-cases, inl, inr}
use cbtools_autobench.Value.Blueprint.{SshConfig}
use cbtools_autobench.Value.Platform.Laws.{IsSupported}
use cbtools_autobench.Effect.Runs.{Pooling}
use cbtools_autobench.Effect.Yields.{
  Yields, Yields-pure, Yields-lift, Yields-wrapped, Yields-bind, Yields-rest,
}
use cbtools_autobench.Ssh.Utils.{determine_platform}
use cbtools_autobench.Ssh.Utils.Platforms.{platform_of-IsSupported}
use cbtools_autobench.Ssh.Client.{Client, Connection, client_of, ssh_dial, new_client, as_root}

-- The connection is one of root to that host, whose platform is supported.
pub record IsConnected (host : String) (c : Client) : Type 0 where
  pub same_host : c.host ≡ host
  pub root : c.user ≡ "root"
  pub platform : IsSupported c.platform

module _ {W : Type 0} (Pooled : Pooling W) where
  determine_platform-IsSupported :
      (host : String) → Yields Pooled IsSupported (determine_platform host)
  unfolding determine_platform
  determine_platform-IsSupported host = Yields-rest Pooled _ _ _ (λ distro.
      Yields-rest Pooled _ _ _
        (λ release. Yields-lift Pooled _ _ (λ p e. platform_of-IsSupported distro release e)))

  -- A connection is one to the host that is dialled, as the user who dials.
  ssh_dial-IsTo :
      (host user : String)
      → Yields Pooled (λ (c : Connection). (c.host ≡ host) × (c.user ≡ user)) (ssh_dial host user)
  unfolding ssh_dial
  ssh_dial-IsTo host user = Yields-rest Pooled _ _ _ (λ _. Yields-pure Pooled _ _ (refl, refl))

  as_root-IsConnected :
      (config : SshConfig) (host : String) (c : Client)
      → c.host ≡ host
      → c.user ≡ config.username
      → IsSupported c.platform
      → Yields Pooled (IsConnected host) (as_root host config c)
  unfolding as_root
  as_root-IsConnected config host c to user h = elim (Bool-cases (config.username == "root")) [
    | inl e ↦ rw e (
        Yields-pure Pooled _ _ (record {
          same_host = to;
          root = user ∙ (eq_iff config.username "root").0 e;
          platform = h;
        }))
    | inr e ↦ rw e (
        Yields-rest Pooled _ _ _ (λ _.
          Yields-bind Pooled (λ (c : Connection). (c.host ≡ host) × (c.user ≡ "root")) _ _ _
            (Yields-wrapped Pooled _ _ _ (ssh_dial-IsTo host "root"))
            (λ connection (to, user).
              Yields-pure Pooled _ _ (record { same_host = to; root = user; platform = h }))))
  ]

  -- A connection that NewClient returns, whatever the machine answers, is one to the given host whose
  -- user is root and whose platform is one of the supported ones.
  pub new_client-IsConnected :
      (host : String) (config : SshConfig)
      → Yields Pooled (IsConnected host) (new_client host config)
  unfolding new_client
  new_client-IsConnected host config = Yields-rest Pooled _ _ _ (λ _.
      Yields-bind Pooled (λ (c : Connection). (c.host ≡ host) × (c.user ≡ config.username)) _ _ _
        (Yields-wrapped Pooled _ _ _ (ssh_dial-IsTo host config.username))
        (λ connection (to, user).
          Yields-bind Pooled IsSupported _ _ _
            (Yields-wrapped Pooled _ _ _ (determine_platform-IsSupported connection.host))
            (λ platform h.
              as_root-IsConnected config host (client_of connection platform) to user h)))
