-- ===== src/Value/Cbm/Flags.antt =====
-- The arguments of a 'cbbackupmgr' command as a list, read off the configuration, and that the methods
-- of `CBMConfig` which extend a command add these arguments.
use text.Mathlib.TextLemmas.{nil-append, append-nil, append_assoc}
use cbtools_autobench.Base.{
  ℕ, String, ◌<>◌, ◌≡◌, refl, ap, ◌∙◌, Bool, true, false, not, ◌==◌, List, [], ◌∷◌, ◌++◌, eqb,
  if◌then◌else◌, arith,
}
use cbtools_autobench.Value.Format.{str, num, sprintf, itoa}
use cbtools_autobench.Value.Format.Laws.{verb_free, verb_free-IsVerbFree, sprintf-str, sprintf-num}
use cbtools_autobench.Value.Blueprint.{CbmConfig}
use cbtools_autobench.Value.Cbm.{
  add_option, add_cloud_args, add_storage, add_threads, add_blackhole, add_point_in_time_flag,
  add_encryption_args,
}

-- The arguments, each behind a space.
pub words : List String → String
words [] = ""
words (w ∷ ws) = " " <> (w <> words ws)

-- A flag without a value, if it is switched on.
abbrev pub flag : Bool → String → List String
flag on name = if on then name ∷ [] else []

-- A flag with a value, if the value is not empty.
abbrev pub option : String → String → List String
option name x = if not (x == "") then (name <> (" " <> x)) ∷ [] else []

pub words-append : (xs ys : List String) → words (xs ++ ys) ≡ words xs <> words ys
unfolding words
words-append [] ys = rw nil-append
words-append (x ∷ xs) ys = simp (words-append xs ys, append_assoc)

words-one : (w : String) → words (w ∷ []) ≡ " " <> w
unfolding words
words-one w = rw append-nil

-- A change of a command that adds the arguments behind it.
unfoldable pub Adds : (String → String) → List String → Type 0
Adds f ws = (command : String) → f command ≡ command <> words ws

pub Adds-nil : Adds (λ command. command) []
unfolding Adds words
Adds-nil command = rw append-nil

-- One change after another.
pub Adds-then :
    (f g : String → String) (xs ys : List String)
    → Adds f xs
    → Adds g ys
    → Adds (λ command. g (f command)) (xs ++ ys)
unfolding Adds
Adds-then f g xs ys hf hg command =
    rw (hg (f command), hf command, words-append xs ys, append_assoc)

Adds-text : (w : String) → Adds (λ command. command <> (" " <> w)) (w ∷ [])
unfolding Adds
Adds-text w command = rw words-one

pub Adds-if :
    (b : Bool) (f g : String → String) (xs ys : List String)
    → Adds f xs
    → Adds g ys
    → Adds (λ command. if b then f command else g command) (if b then xs else ys)
Adds-if true f g xs ys hf hg = hf
Adds-if false f g xs ys hf hg = hg

Adds-sprintf :
    (name x : String)
    → verb_free (" " <> (name <> " ")) ≡ true
    → Adds
        (λ command. command <> sprintf ((" " <> (name <> " ")) <> "%s") (str x ∷ []))
        ((name <> (" " <> x)) ∷ [])
unfolding Adds
Adds-sprintf name x h command = rw (
  sprintf-str (" " <> (name <> " ")) x (verb_free-IsVerbFree _ h),
  words-one,
  append_assoc,
  append_assoc,
)

-- The arguments that configure object storage.
pub cloud_flags : CbmConfig → List String
cloud_flags c =
    option "--obj-staging-dir" c.obj_staging_directory
    ++ (option "--obj-access-key-id" c.obj_access_key_id
        ++ (option "--obj-secret-access-key" c.obj_secret_access_key
            ++ (option "--obj-region" c.obj_region
                ++ (option "--obj-endpoint" c.obj_endpoint
                    ++ (flag c.obj_auth_by_instance_metadata "--obj-auth-by-instance-metadata"
                        ++ (flag c.obj_no_ssl_verify "--obj-no-ssl-verify"
                            ++ (option "--s3-log-level" c.s3_log_level
                                ++ flag c.s3_force_path_style "--s3-force-path-style")))))))

-- What `add_option` does with a format that is a name and `%s`.
Adds-option :
    (c : CbmConfig) (name x : String)
    → verb_free (" " <> (name <> " ")) ≡ true
    → Adds (add_option c x ((" " <> (name <> " ")) <> "%s")) (option name x)
unfolding Adds
Adds-option c name x h =
    Adds-if (not (x == "")) _ (λ command. command) _ [] (Adds-sprintf name x h) Adds-nil

pub add_storage-Adds : (c : CbmConfig) → Adds (add_storage c) (option "--storage" c.storage)
unfolding add_storage Adds
add_storage-Adds c command = ground (arith, Adds-option c "--storage" c.storage refl command)

pub add_blackhole-Adds :
    (c : CbmConfig) → Adds (add_blackhole c) (flag c.blackhole "--sink blackhole")
unfolding add_blackhole Adds
add_blackhole-Adds c command =
    ground (arith, Adds-text "--sink blackhole" command, Adds-nil command)

pub add_point_in_time_flag-Adds :
    (c : CbmConfig) → Adds (add_point_in_time_flag c) (flag c.pitr "--point-in-time")
unfolding add_point_in_time_flag Adds
add_point_in_time_flag-Adds c command =
    ground (arith, Adds-text "--point-in-time" command, Adds-nil command)

pub add_cloud_args-Adds : (c : CbmConfig) → Adds (add_cloud_args c) (cloud_flags c)
unfolding add_cloud_args cloud_flags
add_cloud_args-Adds c =
    Adds-then _ _ _ _ (Adds-option c "--obj-staging-dir" c.obj_staging_directory refl) (
      Adds-then _ _ _ _ (Adds-option c "--obj-access-key-id" c.obj_access_key_id refl) (
        Adds-then _ _ _ _ (Adds-option c "--obj-secret-access-key" c.obj_secret_access_key refl) (
          Adds-then _ _ _ _ (Adds-option c "--obj-region" c.obj_region refl) (
            Adds-then _ _ _ _ (Adds-option c "--obj-endpoint" c.obj_endpoint refl) (
              Adds-then _ _ _ _
                (Adds-if c.obj_auth_by_instance_metadata _ _ _ _
                  (Adds-text "--obj-auth-by-instance-metadata") Adds-nil)
                (Adds-then _ _ _ _
                  (Adds-if c.obj_no_ssl_verify _ _ _ _ (Adds-text "--obj-no-ssl-verify") Adds-nil)
                  (Adds-then _ _ _ _ (Adds-option c "--s3-log-level" c.s3_log_level refl) (
                    Adds-if c.s3_force_path_style _ _ _ _ (Adds-text "--s3-force-path-style")
                      Adds-nil))))))))

abbrev pub thread_flags : CbmConfig → List String
thread_flags c =
    if not (eqb c.threads 0)
    then ("--threads" <> (" " <> itoa c.threads)) ∷ []
    else "--auto-select-threads" ∷ []

Adds-itoa :
    (n : ℕ)
    → Adds
        (λ command. command <> sprintf " --threads %d" (num n ∷ []))
        (("--threads" <> (" " <> itoa n)) ∷ [])
unfolding Adds
Adds-itoa n command =
    rw (sprintf-num " --threads " n (verb_free-IsVerbFree " --threads " refl), words-one)
      (ap (λ t. command <> t)
        (append_assoc " --threads" " " (itoa n) ∙ append_assoc " " "--threads" (" " <> itoa n)))

pub add_threads-Adds : (c : CbmConfig) → Adds (add_threads c) (thread_flags c)
unfolding add_threads
add_threads-Adds c =
    Adds-if (not (eqb c.threads 0)) _ _ _ _ (Adds-itoa c.threads)
      (Adds-text "--auto-select-threads")

-- The passphrase goes to every sub-command of an encrypted archive; the config sub-command is also
-- told to encrypt, and by which algorithm if one is chosen.
abbrev pub encryption_flags : CbmConfig → Bool → List String
encryption_flags c config =
    if not c.encrypted
    then []
    else ("--passphrase" <> (" " <> c.passphrase))
      ∷ (if not config then [] else "--encrypted" ∷ option "--encryption-algo" c.encryption_algo)

pub add_encryption_args-Adds :
    (c : CbmConfig) (config : Bool)
    → Adds (λ command. add_encryption_args c command config) (encryption_flags c config)
unfolding add_encryption_args
add_encryption_args-Adds c config = Adds-if (not c.encrypted) _ _ _ _ Adds-nil (
    Adds-then _
      (λ command'.
        if not config
        then command'
        else add_option c c.encryption_algo " --encryption-algo %s" (command' <> " --encrypted"))
      _ _ (Adds-sprintf "--passphrase" c.passphrase refl)
      (Adds-if (not config) _ _ _ _ Adds-nil (
        Adds-then _ _ _ _ (Adds-text "--encrypted")
          (Adds-option c "--encryption-algo" c.encryption_algo refl))))
