-- ===== src/Config/Mandatory.antt =====
-- `MANDATORY_FORBID_PATHS` of src/leftovers/config.py: what no configuration can take off the list.
use leftovers.Base.{String, List, [], ◌∷◌}

abbrev pub mandatory_forbid_paths : List String
mandatory_forbid_paths =
    ".github/workflows/**" ∷ ".github/actions/**" ∷ ".gitlab-ci.yml" ∷ ".gitlab-ci.yaml"
    ∷ ".circleci/**" ∷ ".buildkite/**" ∷ ".azure-pipelines/**" ∷ "Jenkinsfile" ∷ "Jenkinsfile.*"
    ∷ "**/Jenkinsfile" ∷ "**/Jenkinsfile.*" ∷ "azure-pipelines.yml" ∷ "azure-pipelines.yaml"
    ∷ "bitbucket-pipelines.yml" ∷ "bitbucket-pipelines.yaml" ∷ ".travis.yml" ∷ ".travis.yaml"
    ∷ ".drone.yml" ∷ ".drone.yaml" ∷ ".woodpecker.yml" ∷ ".woodpecker.yaml" ∷ "appveyor.yml"
    ∷ "appveyor.yaml" ∷ "infra/**" ∷ "**/infra/**" ∷ "infrastructure/**" ∷ "**/infrastructure/**"
    ∷ "terraform/**" ∷ "**/terraform/**" ∷ "*.tf" ∷ "**/*.tf" ∷ "*.tf.json" ∷ "**/*.tf.json"
    ∷ "*.tfvars" ∷ "**/*.tfvars" ∷ "k8s/**" ∷ "**/k8s/**" ∷ "kubernetes/**" ∷ "**/kubernetes/**"
    ∷ "helm/**" ∷ "**/helm/**" ∷ "charts/**" ∷ "**/charts/**" ∷ "ansible/**" ∷ "**/ansible/**"
    ∷ "cloudformation/**" ∷ "**/cloudformation/**" ∷ "deploy/**" ∷ "**/deploy/**" ∷ "deployment/**"
    ∷ "**/deployment/**" ∷ "scripts/deploy*" ∷ "**/scripts/deploy*" ∷ "scripts/release*"
    ∷ "**/scripts/release*" ∷ ".devcontainer/**" ∷ "**/.devcontainer/**" ∷ "Pulumi.yaml"
    ∷ "Pulumi.*.yaml" ∷ "**/Pulumi.yaml" ∷ "**/Pulumi.*.yaml" ∷ "cdk.json" ∷ "**/cdk.json"
    ∷ "serverless.yml" ∷ "serverless.yaml" ∷ "**/serverless.yml" ∷ "**/serverless.yaml"
    ∷ "samconfig.toml" ∷ "**/samconfig.toml" ∷ "Dockerfile" ∷ "Dockerfile.*" ∷ "**/Dockerfile"
    ∷ "**/Dockerfile.*" ∷ "docker-compose*.yml" ∷ "docker-compose*.yaml" ∷ "**/docker-compose*.yml"
    ∷ "**/docker-compose*.yaml" ∷ "compose*.yml" ∷ "compose*.yaml" ∷ "**/compose*.yml"
    ∷ "**/compose*.yaml" ∷ "SECURITY.md" ∷ "CODEOWNERS" ∷ ".github/CODEOWNERS" ∷ "docs/CODEOWNERS"
    ∷ "LICENSE*" ∷ "**/LICENSE*" ∷ "COPYING*" ∷ "**/COPYING*" ∷ "NOTICE*" ∷ "**/NOTICE*"
    ∷ ".gitmodules" ∷ ".gitattributes" ∷ "*.pem" ∷ "*.key" ∷ "**/*.pem" ∷ "**/*.key" ∷ []
