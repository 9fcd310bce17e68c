-- ===== src/Ssh/Utils/Platforms.antt =====
-- Which platforms are recognised.
use cbtools_autobench.Base.{◌≡◌, String, arith}
use cbtools_autobench.Result.{ok}
use cbtools_autobench.Value.Platform.{Platform}
use cbtools_autobench.Value.Platform.Laws.{IsSupported}
use cbtools_autobench.Ssh.Utils.{platform_of}

-- A recognised machine has a supported platform.
pub platform_of-IsSupported :
    (distro release : String) {p : Platform} → platform_of distro release ≡ ok p → IsSupported p
unfolding platform_of
platform_of-IsSupported distro release h = ground arith
