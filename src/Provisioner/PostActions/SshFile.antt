-- ===== src/Provisioner/PostActions/SshFile.antt =====
-- The file that SSHConfigAction.Apply of internal/provisioner/actions.go leaves.
use ghost_node.Prelude.{String, ◌≡◌, ◌≢◌, Bool, none, some, List, ok}
use ghost_node.Texts.{Text, codes}
use ghost_node.Provisioner.SshConfig.Entries.{host_name_of}
use ghost_node.Provisioner.SshConfig.Ssh.{ssh_host_name}
use ghost_node.Provisioner.PostActions.{Files}

-- The documented effect of the calls on what a path reads.
pub record FileLaws (State : Type 0) (files : Files State) : Type 0 where
  pub fresh :
      (st st' : State) (dir tmp path : String) (text : Text)
      → files.create_temp st dir ≡ (st', ok tmp)
      → files.read st path ≡ ok text
      → path ≢ tmp
  pub written :
      (st st' : State) (tmp : String) (text : Text)
      → files.write_text st tmp text ≡ (st', none)
      → files.read st' tmp ≡ ok text
  pub closed :
      (st st' : State) (tmp path : String)
      → files.close st tmp ≡ (st', none)
      → files.read st' path ≡ files.read st path
  pub permitted :
      (st st' : State) (tmp path : String)
      → files.chmod_600 st tmp ≡ (st', none)
      → files.read st' path ≡ files.read st path
  pub moved :
      (st st' : State) (tmp path : String)
      → files.rename st tmp path ≡ (st', none)
      → files.read st' path ≡ files.read st tmp
  pub removed :
      (st : State) (tmp path : String)
      → path ≢ tmp
      → files.read (files.remove st tmp) path ≡ files.read st path

module _ (State : Type 0) (files : Files State) (laws : FileLaws State files) where
  -- What the file reads at the end: the text, in which the host has the address.
  abbrev pub Repointed : String → String → String → State → Type 0
  Repointed path alias ip st =
      (text : Text) × (files.read st path ≡ ok text)
      × (host_name_of text (codes alias) ≡ some (codes ip))

  -- What the file reads at the end: the text, of which ssh reads the address as the HostName of the
  -- host, whichever Match lines apply.
  abbrev pub SshReads : String → String → String → State → Type 0
  SshReads path alias ip st =
      (text : Text) × (files.read st path ≡ ok text)
      × ((criteria : List Text → Bool)
          → ssh_host_name criteria text (codes alias) ≡ some (codes ip))
